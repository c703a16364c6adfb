-- ===== src/Passes/Agreement.antt =====
-- The two passes of src/passes together: the second runs to its end with the layout of the first, and
-- every label of the program is found where its line was written.
use nazm.Prelude.{
  ℕ, zero, suc, ◌+◌, ◌*◌, ◌^◌, ◌<◌, ◌≡◌, refl, ap, ◌∙◌, subst, Bool, true, false, ◌||◌, not, List,
  [], ◌∷◌, some, if◌then◌else◌, length, get_elem?, pos, same_bytes, Option-cases, Bool-cases, inl,
  inr, arith,
}
use nazm.Encoder.Operands.{Text}
use nazm.Symtable.{SymEntry, symtable_lookup_ex, symtable_buckets}
use nazm.Symtable.Refinement.{AllSound, init-AllSound, lookups_lem}
use nazm.Passes.Instruction.{Instruction, AllParsed}
use nazm.Passes.Debug.{DebugError}
use nazm.Passes.Offsets.{Offsets}
use nazm.Passes.Reports.{
  Pass1Error, visibility_name, report_binding, report_chain, report_buckets,
  report_undefined_visibility_symbols, report_locations,
}
use nazm.Passes.First.{pass1_start, pass1_loop, pass1_run}
use nazm.Passes.Output.{EmissionSpan, Pass2State, pass2_start, go}
use nazm.Passes.Second.{sizes_differ, pass2_loop, pass2_end, pass2_run}
use nazm.Passes.Layout.{HasRoom}
use nazm.Passes.Layout.Steps.{loop-HasRoom}
use nazm.Passes.Layout.Written.{sizes_of}
use nazm.Passes.Layout.Program.{Matches, placements, loop-Matches}
use nazm.Passes.Placed.{takes_label, loop-placed}

-- The checks behind the loop take no error back.
locations-quiet :
    (es : List DebugError) (errors : List Pass1Error)
    → report_locations es errors ≡ []
    → errors ≡ []
locations-quiet [] errors h = h
locations-quiet (e ∷ es) errors h = absurd (ground arith)

binding-quiet :
    (is : List Instruction) (name : Text) (errors : List Pass1Error)
    → report_binding is name errors ≡ []
    → errors ≡ []
unfolding report_binding
binding-quiet [] name errors h = h
binding-quiet (i ∷ is) name errors h =
    elim (Option-cases (visibility_name i.directive_kind i.ops)) [
      | inl e ↦ binding-quiet is name errors (rw (report_binding, e) at h)
      | inr (bound, e) ↦ elim (Bool-cases (not (same_bytes bound name))) [
        | inl away ↦ binding-quiet is name errors (rw (report_binding, e, away) at h)
        | inr same ↦
            let reported : Pass1Error.visibility_undefined name ∷ errors ≡ [] =
              rw (report_binding, e, same) at h in
            absurd (ground arith)
      ]
    ]

chain-quiet :
    (is : List Instruction) (es : List SymEntry) (errors : List Pass1Error)
    → report_chain is es errors ≡ []
    → errors ≡ []
unfolding report_chain
chain-quiet is [] errors h = h
chain-quiet is (e ∷ es) errors h =
    entry (e.defined || e.external_declared || not e.binding_declared) (chain-quiet is es _ h)
  where
    entry : (c : Bool) → (if c then errors else report_binding is e.name errors) ≡ [] → errors ≡ []
    entry true q = q
    entry false q = binding-quiet is e.name errors q

buckets-quiet :
    (is : List Instruction) (buckets : ℕ → List SymEntry) (rounds bucket : ℕ)
    (errors : List Pass1Error)
    → report_buckets is buckets rounds bucket errors ≡ []
    → errors ≡ []
unfolding report_buckets
buckets-quiet is buckets zero bucket errors h = h
buckets-quiet is buckets (suc rounds) bucket errors h =
    chain-quiet is (buckets bucket) errors (buckets-quiet is buckets rounds _ _ h)

pub run-quiet :
    (is : List Instruction) → (pass1_run is).errors ≡ [] → (pass1_loop is pass1_start).errors ≡ []
unfolding pass1_run report_undefined_visibility_symbols
run-quiet is h =
    let st = pass1_loop is pass1_start in
    buckets-quiet is st.symtable.buckets symtable_buckets 0 st.errors (locations-quiet _ _ h)

pub start-HasRoom : (n : ℕ) → n < 2 ^ 32 → HasRoom (n * 2 ^ 31) pass1_start.offsets
unfolding pass1_start
start-HasRoom n h = (omega arith, omega arith, omega arith, omega arith)

pub start-Matches : Matches pass1_start pass2_start
unfolding pass1_start pass2_start
start-Matches = record { same_section = refl; same_sizes = refl }

start-AllSound : AllSound pass1_start.symtable
unfolding pass1_start
start-AllSound = init-AllSound

-- The comparison at the end finds equal sizes.
end-sizes :
    (caps : Offsets) (end : Pass2State) → sizes_of end ≡ caps → pass2_end caps (go 0 end) ≡ end
unfolding pass2_end
end-sizes caps end same =
    subst (λ c. pass2_end c (go 0 end) ≡ end) same
      (let equal : sizes_differ (sizes_of end) end ≡ false = ground arith in
        rw (pass2_end, equal) refl)

module _ (is : List Instruction) (parsed : AllParsed is) (few : length is < 2 ^ 32)
    (quiet : (pass1_run is).errors ≡ []) where
  pub bss_bound : (pass1_run is).offsets.bss < 2 ^ 64
  unfolding pass1_run
  bss_bound =
      let room = start-HasRoom (length is + 0) (omega arith) in
      let below = loop-HasRoom is 0 pass1_start parsed room (run-quiet is quiet) in
      omega (arith, below.3)

  -- For a parsed program of fewer than 2 ^ 32 lines in which the first pass finds no error: the
  -- second pass runs to the end of the program, where its comparison of sizes finds no difference;
  -- each section has the size that the first pass has counted; and the emission span of every line
  -- has the section, the offset and, except for uninitialised space, the size that the first pass
  -- has given to the line. This holds too where instructions are rejected for their operands.
  pub pass2_run-placements :
      ((pass2_run is (pass1_run is)).0 ≡ placements is pass1_start)
      × (sizes_of (pass2_run is (pass1_run is)).1 ≡ (pass1_run is).offsets)
      × ((pass2_loop (pass1_run is) is pass2_start).1 ≡ go 0 (pass2_run is (pass1_run is)).1)
  unfolding pass1_run pass2_run
  pass2_run-placements =
      let loop_quiet = run-quiet is quiet in
      let room = start-HasRoom (length is) few in
      let (spans, (end, ends, m)) =
        loop-Matches (pass1_run is) bss_bound is pass1_start pass2_start parsed room start-Matches
          loop_quiet (omega arith, omega arith, omega arith, omega arith) in
      let same = end-sizes (pass1_run is).offsets end m.same_sizes in
      rw (ends, same) (spans, m.same_sizes, refl)

  -- For a parsed program of fewer than 2 ^ 32 lines in which the first pass finds no error: the
  -- label of every instruction and of every data directive is found, in the symbol table that the
  -- first pass leaves, in the section and at the offset of the emission span that the second pass
  -- gives to its line.
  pub symtable_lookup_ex-emission :
      (k : ℕ) (i : Instruction) (name : Text)
      → get_elem? is k ≡ some i
      → i.label ≡ some name
      → takes_label i.directive_kind ≡ true
      → (e : EmissionSpan) × (get_elem? (pass2_run is (pass1_run is)).0 k ≡ some e)
        × (symtable_lookup_ex (pass1_run is).symtable name ≡ some (pos e.offset, e.section))
  unfolding pass1_run
  symtable_lookup_ex-emission k i name at_k named takes =
      let room = start-HasRoom (length is) few in
      let (e, spanned, placed) =
        loop-placed is pass1_start k i name parsed room start-AllSound (run-quiet is quiet) at_k
          named takes in
      (
        e,
        ap (λ spans. get_elem? spans k) pass2_run-placements.0 ∙ spanned,
        (lookups_lem (pass1_run is).symtable name).0 ∙ placed,
      )
