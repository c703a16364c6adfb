-- ===== src/Passes/Layout/Program.antt =====
-- The two passes of src/passes on a whole program: the second ends without an internal error, with the
-- sizes of the first, and its emission spans are where the first pass has laid the lines.
use nazm.Prelude.{ℕ, ◌*◌, ◌^◌, ◌<◌, ◌≡◌, refl, sym, ap, ◌∙◌, subst, List, [], ◌∷◌, length}
use nazm.Symtable.{SymbolSection}
use nazm.Passes.Instruction.{DirectiveKind, Instruction, IsParsed, AllParsed}
use nazm.Passes.Offsets.{Offsets, pass1_section_offset}
use nazm.Passes.First.{Pass1State, pass1_step, pass1_loop}
use nazm.Passes.Output.{
  Pass2State, pass2_section_size, Flow, go, EmissionSpan, emission_section, emission_of,
}
use nazm.Passes.Second.{pass2_step, pass2_loop}
use nazm.Passes.Layout.{line_size, grow, HasRoom, Fits, Fits-trans}
use nazm.Passes.Layout.Lines.{next_section, next_size, step-Lays}
use nazm.Passes.Layout.Quiet.{loop-quiet}
use nazm.Passes.Layout.Steps.{step-HasRoom, loop-Fits}
use nazm.Passes.Layout.Written.{sizes_of, span_size, Writes}
use nazm.Passes.Layout.Accepted.{section_size-sizes_of}
use nazm.Passes.Layout.Agreement.{kind-Writes}

-- The two passes have come to the same point.
pub record Matches (first : Pass1State) (st : Pass2State) : Type 0 where
  pub same_section : st.current_section ≡ first.current_section
  pub same_sizes : sizes_of st ≡ first.offsets

-- The round of a line from the section `s` and the sizes `o`.
abbrev grown : DirectiveKind → Instruction → SymbolSection → Offsets → Offsets
grown kind i s o =
    let section = emission_section kind s in
    grow section (line_size kind i section (pass1_section_offset section o)) o

abbrev Round : DirectiveKind → Instruction → SymbolSection → Offsets → Flow → Type 0
Round kind i s o flow =
    Writes (emission_section kind s)
      (line_size kind i (emission_section kind s)
        (pass1_section_offset (emission_section kind s) o))
      o flow

abbrev span : SymbolSection → ℕ → ℕ → EmissionSpan
span section offset size = record { section = section; offset = offset; size = size }

-- The emission spans of the layout of the first pass.
abbrev pub placement : Instruction → Pass1State → EmissionSpan
placement i first =
    let section = next_section i first in
    record {
      section = section;
      offset = pass1_section_offset section first.offsets;
      size = span_size section (next_size i first);
    }

abbrev pub placements : List Instruction → Pass1State → List EmissionSpan
placements [] first = []
placements (i ∷ is) first = placement i first ∷ placements is (pass1_step i first)

module _ (pass1 : Pass1State) (small : pass1.offsets.bss < 2 ^ 64) where
  step-Writes :
      (i : Instruction) (first : Pass1State) (st : Pass2State)
      → IsParsed i
      → Matches first st
      → (pass1_step i first).errors ≡ []
      → Fits (grown i.directive_kind i first.current_section first.offsets) pass1.offsets
      → Round i.directive_kind i first.current_section first.offsets (pass2_step pass1 i st)
  unfolding pass1_step pass2_step
  step-Writes i first st parsed m quiet fits =
      let kind = i.directive_kind in
      let here =
        subst (λ s. Fits (grown kind i s first.offsets) pass1.offsets) (sym m.same_section) fits in
      let there =
        subst (λ o. Fits (grown kind i st.current_section o) pass1.offsets) (sym m.same_sizes)
          here in
      let round = kind-Writes pass1 small i parsed first st m.same_section kind quiet there in
      subst (λ o. Round kind i first.current_section o (pass2_step pass1 i st)) m.same_sizes
        (subst (λ s. Round kind i s (sizes_of st) (pass2_step pass1 i st)) m.same_section round)

  emission-placement :
      (i : Instruction) (first : Pass1State) (st : Pass2State) (size : ℕ)
      → Matches first st
      → size ≡ span_size (next_section i first) (next_size i first)
      → emission_of i st size ≡ placement i first
  emission-placement i first st size m spans =
      let section = next_section i first in
      let at_offset : pass2_section_size section st ≡ pass1_section_offset section first.offsets =
        section_size-sizes_of section st ∙ ap (pass1_section_offset section) m.same_sizes in
      let kind = i.directive_kind in
      let here : emission_of i st size ≡ span section (pass2_section_size section st) size =
        ap
          (λ s.
            span (emission_section kind s) (pass2_section_size (emission_section kind s) st) size)
          m.same_section in
      here
      ∙ ap (λ n. span section n size) at_offset
      ∙ ap (λ n. span section (pass1_section_offset section first.offsets) n) spans

  pub loop-Matches :
      (is : List Instruction) (first : Pass1State) (st : Pass2State)
      → AllParsed is
      → HasRoom (length is * 2 ^ 31) first.offsets
      → Matches first st
      → (pass1_loop is first).errors ≡ []
      → Fits (pass1_loop is first).offsets pass1.offsets
      → ((pass2_loop pass1 is st).0 ≡ placements is first)
        × ((end : Pass2State) × ((pass2_loop pass1 is st).1 ≡ go 0 end)
            × Matches (pass1_loop is first) end)
  unfolding pass1_loop pass2_loop
  loop-Matches [] first st parsed room m h fits = (refl, (st, refl, m))
  loop-Matches (i ∷ is) first st (p, ps) room m h fits =
      let next = pass1_step i first in
      let left = length is in
      let quiet = loop-quiet is next h in
      let laid = step-Lays i p left first room quiet in
      let roomy = step-HasRoom i p left first room quiet in
      let inside = Fits-trans next.offsets _ pass1.offsets (loop-Fits is next ps roomy h) fits in
      let w =
        step-Writes i first st p m quiet (subst (λ o. Fits o pass1.offsets) laid.lays inside) in
      let matches : Matches next w.next = record {
        same_section = w.moves ∙ sym laid.moves;
        same_sizes = w.writes ∙ sym laid.lays;
      } in
      let (spans, rest) = loop-Matches is next w.next ps roomy matches h fits in
      let placed = emission-placement i first st w.size m w.spans in
      rw (pass2_loop, w.goes, placed, spans) (refl, rest)
