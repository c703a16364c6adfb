-- ===== src/Passes/Layout/Accepted.antt =====
-- The lines of passes/pass2.c that write nothing, the instructions, and the data directives that the
-- first pass accepts.
use nazm.Prelude.{
  ℕ, ◌^◌, ◌<◌, ◌≡◌, refl, sym, ◌∙◌, subst, false, ◌||◌, not, List, [], ◌∷◌, none, if◌then◌else◌,
  Bool-cases, inl, inr, length, arith,
}
use nazm.Encoder.Operands.{Operand, imm}
use nazm.Symtable.{SymbolSection}
use nazm.Passes.Instruction.{DirectiveKind, Instruction, IsParsed}
use nazm.Passes.Offsets.{Offsets, pass1_section_offset, is_section}
use nazm.Passes.First.{Pass1State, laid_size, opcode_is_invalid}
use nazm.Passes.Sizes.{data_bytes}
use nazm.Passes.Data.{validate_data_directive}
use nazm.Passes.Output.{Pass2State, pass2_section_size, go}
use nazm.Passes.Second.{write_line, write_instruction, store_location, write_data}
use nazm.Passes.Layout.{code_size, grow, Fits, grow_nothing}
use nazm.Passes.Layout.Walk.{is_text}
use nazm.Passes.Layout.Written.{sizes_of, span_size, Writes, instruction-Writes}
use nazm.Passes.Layout.Rounds.{data-Writes}

pub section_size-sizes_of :
    (section : SymbolSection) (st : Pass2State)
    → pass2_section_size section st ≡ pass1_section_offset section (sizes_of st)
section_size-sizes_of SymbolSection.text st = refl
section_size-sizes_of SymbolSection.data_section st = refl
section_size-sizes_of SymbolSection.read_only_data st = refl
section_size-sizes_of SymbolSection.bss st = refl
section_size-sizes_of SymbolSection.unknown st = refl

span_nothing : (section : SymbolSection) → 0 ≡ span_size section 0
span_nothing SymbolSection.text = refl
span_nothing SymbolSection.data_section = refl
span_nothing SymbolSection.read_only_data = refl
span_nothing SymbolSection.bss = refl
span_nothing SymbolSection.unknown = refl

-- A line that writes nothing.
pub idle-Writes :
    (section : SymbolSection) (o : Offsets) (next : Pass2State)
    → next.current_section ≡ section
    → sizes_of next ≡ o
    → Writes section 0 o (go 0 next)
idle-Writes section o next moves same = record {
  next = next;
  size = 0;
  goes = refl;
  moves = moves;
  writes = same ∙ sym (grow_nothing section o);
  spans = span_nothing section;
}

pub location-Writes :
    (ops : List Operand) (st : Pass2State)
    → Writes st.current_section 0 (sizes_of st) (go 0 (store_location ops st))
location-Writes (imm file ∷ imm line ∷ imm column ∷ []) st =
    idle-Writes st.current_section (sizes_of st) _ refl refl
location-Writes _ st = idle-Writes st.current_section (sizes_of st) st refl refl

module _ (pass1 : Pass1State) (small : pass1.offsets.bss < 2 ^ 64) (i : Instruction)
    (parsed : IsParsed i) (st : Pass2State) where
  -- A line without a directive.
  pub line-Writes :
      Fits (grow st.current_section (code_size i st.current_section) (sizes_of st)) pass1.offsets
      → Writes st.current_section
          (code_size i st.current_section)
          (sizes_of st)
          (write_line pass1 i st)
  unfolding write_line
  line-Writes fits =
      elim (Bool-cases
        (opcode_is_invalid i.opcode || not (is_section st.current_section SymbolSection.text))) [
          | inl e ↦ rw (write_line, e) (idle-Writes st.current_section (sizes_of st) st refl refl)
          | inr e ↦
              let here = is_text st.current_section (ground arith) in
              let laid : Fits (grow st.current_section n (sizes_of st)) pass1.offsets =
                rw e at fits in
              let room = subst (λ s. Fits (grow s n (sizes_of st)) pass1.offsets) here laid in
              rw (write_line, e)
                (subst (λ s. Writes s n (sizes_of st) (write_instruction pass1 i.opcode i.ops st))
                  (sym here) (instruction-Writes pass1 i st parsed here room.0))
        ]
    where
      n : ℕ
      n = laid_size i.opcode i.ops

  -- A line of a data directive that the first pass accepts in this section.
  pub accepted-Writes :
      (kind : DirectiveKind)
      → is_section st.current_section SymbolSection.text
          || is_section st.current_section SymbolSection.unknown
        ≡ false
      → validate_data_directive kind i.ops ≡ none
      → Fits
          (grow st.current_section
            (length (data_bytes kind i.ops (pass1_section_offset st.current_section (sizes_of st))))
            (sizes_of st))
          pass1.offsets
      → Writes st.current_section
          (length (data_bytes kind i.ops (pass1_section_offset st.current_section (sizes_of st))))
          (sizes_of st)
          (if is_section st.current_section SymbolSection.text
            then go 0 st
            else write_data pass1 st.current_section kind i.ops st)
  accepted-Writes kind outside valid fits =
      let elsewhere : is_section st.current_section SymbolSection.text ≡ false = ground arith in
      let size = section_size-sizes_of st.current_section st in
      rw (elsewhere, ← size)
        (data-Writes pass1 i parsed st kind st.current_section refl outside valid (rw size fits)
          small)
