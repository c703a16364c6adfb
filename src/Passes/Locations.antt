-- ===== src/Passes/Locations.antt =====
-- Every line record of src/passes names a declared file and a location that fits the debug formats.
use mathlib.Core.Option.{some-injective}
use nazm.Prelude.{
  ℕ, ◌≡◌, refl, sym, ◌∙◌, subst, List, [], ◌∷◌, Option, none, some, Option-cases, inl, inr, arith,
}
use nazm.Encoder.Operands.{Operand}
use nazm.Passes.Instruction.{DirectiveKind, Instruction}
use nazm.Passes.Debug.{
  DebugError, DebugFile, debug_file_find, location_file, validate_debug_location_directive,
  validate_debug_location_files,
}
use nazm.Passes.Offsets.{Offsets}
use nazm.Passes.Reports.{Pass1Error, report_locations}
use nazm.Passes.First.{
  Pass1State, after_location, pass1_line, pass1_step, pass1_loop, pass1_start, pass1_run,
}
use nazm.Passes.Output.{Flow, go, stop, pass2_start}
use nazm.Passes.Second.{pass2_loop, pass2_end, pass2_run}
use nazm.Passes.Lines.{state_of, debug_of}
use nazm.Passes.Records.{Declared, AllRecords, Records, LineLocated, AllLocated, flow-Records}
use nazm.Passes.Layout.Quiet.{loop-quiet}
use nazm.Passes.Agreement.{run-quiet}

-- The location directives that the first pass lets through.
abbrev Valid : DirectiveKind → List Operand → Type 0
Valid DirectiveKind.debug_location ops = validate_debug_location_directive ops ≡ none
Valid kind ops = Unit

abbrev AllValid : List Instruction → Type 0
AllValid [] = Unit
AllValid (i ∷ is) = Valid i.directive_kind i.ops × AllValid is

location-passed :
    (result : Option DebugError) (st : Pass1State)
    → (after_location result st).errors ≡ []
    → result ≡ none
unfolding after_location
location-passed none st h = refl
location-passed (some e) st h = absurd (ground arith)

line-Valid :
    (kind : DirectiveKind) (i : Instruction) (st : Pass1State)
    → (pass1_line kind i st).errors ≡ []
    → Valid kind i.ops
unfolding pass1_line
line-Valid DirectiveKind.debug_location i st h = location-passed _ st h
line-Valid DirectiveKind.text i st h = tt
line-Valid DirectiveKind.data_section i st h = tt
line-Valid DirectiveKind.read_only_data i st h = tt
line-Valid DirectiveKind.bss i st h = tt
line-Valid DirectiveKind.external i st h = tt
line-Valid DirectiveKind.global i st h = tt
line-Valid DirectiveKind.local i st h = tt
line-Valid DirectiveKind.debug_file i st h = tt
line-Valid DirectiveKind.debug_file_bytes i st h = tt
line-Valid DirectiveKind.none i st h = tt
line-Valid DirectiveKind.int8 i st h = tt
line-Valid DirectiveKind.int16 i st h = tt
line-Valid DirectiveKind.int32 i st h = tt
line-Valid DirectiveKind.int64 i st h = tt
line-Valid DirectiveKind.alignment i st h = tt
line-Valid DirectiveKind.zero_space i st h = tt
line-Valid DirectiveKind.nul_string i st h = tt
line-Valid DirectiveKind.invalid i st h = tt

loop-AllValid :
    (is : List Instruction) (st : Pass1State) → (pass1_loop is st).errors ≡ [] → AllValid is
unfolding pass1_loop pass1_step
loop-AllValid [] st h = tt
loop-AllValid (i ∷ is) st h =
    let next = pass1_step i st in
    (line-Valid i.directive_kind i st (loop-quiet is next h), loop-AllValid is next h)

apart : (id : ℕ) → none ≡ some id → ⊥
apart id h = ground arith

-- The check of the files.
module _ (files : List DebugFile) where
  files-passed :
      (i : Instruction) (is : List Instruction)
      → validate_debug_location_files (i ∷ is) files ≡ []
      → (validate_debug_location_files is files ≡ [])
        × ((id : ℕ) → location_file i.directive_kind i.ops ≡ some id → Declared files id)
  unfolding validate_debug_location_files
  files-passed i is h = elim (Option-cases (location_file i.directive_kind i.ops)) [
    | inl e ↦
        (rw (validate_debug_location_files, e) at h, λ id found. absurd (apart id (sym e ∙ found)))
    | inr (id, e) ↦ elim (Option-cases (debug_file_find files id)) [
      | inl missing ↦
          let reported : DebugError.location_file_undeclared
                ∷ validate_debug_location_files is files
              ≡ [] =
            rw (validate_debug_location_files, e, missing) at h in
          absurd (ground arith)
      | inr (f, there) ↦ (
        rw (validate_debug_location_files, e, there) at h,
        λ other found.
            let same = some-injective id other (sym e ∙ found) in
            (f, subst (λ n. debug_file_find files n ≡ some f) same there),
      )
    ]
  ]

  line-LineLocated :
      (kind : DirectiveKind) (ops : List Operand)
      → Valid kind ops
      → ((id : ℕ) → location_file kind ops ≡ some id → Declared files id)
      → LineLocated files kind ops
  line-LineLocated DirectiveKind.debug_location ops valid declared = record {
    valid = valid;
    declared = declared;
  }
  line-LineLocated DirectiveKind.text ops valid declared = tt
  line-LineLocated DirectiveKind.data_section ops valid declared = tt
  line-LineLocated DirectiveKind.read_only_data ops valid declared = tt
  line-LineLocated DirectiveKind.bss ops valid declared = tt
  line-LineLocated DirectiveKind.external ops valid declared = tt
  line-LineLocated DirectiveKind.global ops valid declared = tt
  line-LineLocated DirectiveKind.local ops valid declared = tt
  line-LineLocated DirectiveKind.debug_file ops valid declared = tt
  line-LineLocated DirectiveKind.debug_file_bytes ops valid declared = tt
  line-LineLocated DirectiveKind.none ops valid declared = tt
  line-LineLocated DirectiveKind.int8 ops valid declared = tt
  line-LineLocated DirectiveKind.int16 ops valid declared = tt
  line-LineLocated DirectiveKind.int32 ops valid declared = tt
  line-LineLocated DirectiveKind.int64 ops valid declared = tt
  line-LineLocated DirectiveKind.alignment ops valid declared = tt
  line-LineLocated DirectiveKind.zero_space ops valid declared = tt
  line-LineLocated DirectiveKind.nul_string ops valid declared = tt
  line-LineLocated DirectiveKind.invalid ops valid declared = tt

  all-AllLocated :
      (is : List Instruction)
      → AllValid is
      → validate_debug_location_files is files ≡ []
      → AllLocated files is
  all-AllLocated [] valid h = tt
  all-AllLocated (i ∷ is) (v, vs) h =
      let (rest, declared) = files-passed i is h in
      (line-LineLocated i.directive_kind i.ops v declared, all-AllLocated is vs rest)

locations-passed :
    (es : List DebugError) (errors : List Pass1Error) → report_locations es errors ≡ [] → es ≡ []
locations-passed [] errors h = refl
locations-passed (e ∷ es) errors h = absurd (ground arith)

end-debug :
    (caps : Offsets) (flow : Flow) → debug_of (pass2_end caps flow) ≡ debug_of (state_of flow)
unfolding pass2_end
end-debug caps (go size st) = ground arith
end-debug caps (stop size st) = refl

start-Records : (files : List DebugFile) → Records files (debug_of pass2_start)
unfolding pass2_start
start-Records files = record { in_force = inl refl; recorded = tt }

-- For a program in which the first pass finds no error: every line record of the second pass names a
-- file that the program has declared, its line is from 1 to 2 ^ 24 - 1, and its column is below
-- 2 ^ 16.
pub debug_lines-AllRecords :
    (is : List Instruction)
    → (pass1_run is).errors ≡ []
    → AllRecords (pass1_run is).debug_files (pass2_run is (pass1_run is)).1.debug_lines
unfolding pass1_run pass2_run
debug_lines-AllRecords is quiet =
    let pass1 = pass1_run is in
    let st = pass1_loop is pass1_start in
    let valid = loop-AllValid is pass1_start (run-quiet is quiet) in
    let located = all-AllLocated st.debug_files is valid (locations-passed _ _ quiet) in
    let records =
      flow-Records st.debug_files pass1 is pass2_start located (start-Records st.debug_files) in
    (subst (Records st.debug_files)
      (sym (end-debug pass1.offsets (pass2_loop pass1 is pass2_start).1)) records).recorded
