-- ===== src/Passes/Layout/Lines.antt =====
-- The layout of one line in passes/pass1.c: its section, and its size there.
use nazm.Prelude.{
  ℕ, zero, suc, ◌*◌, ◌^◌, ◌<◌, ◌≡◌, refl, sym, ◌∙◌, Bool, ◌||◌, not, [], none, Bool-cases, inl, inr,
  length, pos, arith,
}
use nazm.Symtable.{SymbolSection, SymbolBinding}
use nazm.Passes.Instruction.{DirectiveKind, Instruction, IsParsed}
use nazm.Passes.Offsets.{
  Offsets, pass1_section_offset, advance_by, is_section, pass1_note_alignment,
}
use nazm.Passes.Data.{validate_data_directive}
use nazm.Passes.First.{
  Pass1State, enter_label, lay_data, data_line, laid_size, opcode_is_invalid, instruction_line,
  pass1_line, pass1_step,
}
use nazm.Passes.Sizes.{data_bytes}
use nazm.Passes.Emission.{data_directive_size_lem}
use nazm.Passes.Layout.{code_size, grow, HasRoom, grow_nothing, advance-grow, line_size}
use nazm.Passes.Output.{emission_section}
use nazm.Passes.Layout.Walk.{
  Lays, file-Lays, location-Lays, label-Lays, external-Lays, visibility-Lays, is_text,
  laid_size-InBuffer, data_line-Accepts, data_line-lay_data, instruction_line-labelled,
}

advance_by-grow :
    (section : SymbolSection) (n left : ℕ) (o : Offsets)
    → n < 2 ^ 31
    → HasRoom (suc left * 2 ^ 31) o
    → advance_by (pos n) section o ≡ grow section n o
advance_by-grow section zero left o small room = sym (grow_nothing section o)
advance_by-grow section (suc n) left o small room =
    rw (advance-grow section (suc n) left o small room) (ground arith)

-- The section and the size of the next line.
abbrev pub next_section : Instruction → Pass1State → SymbolSection
next_section i st = emission_section i.directive_kind st.current_section

abbrev pub next_size : Instruction → Pass1State → ℕ
next_size i st =
    let section = next_section i st in
    line_size i.directive_kind i section (pass1_section_offset section st.offsets)

module _ (i : Instruction) (parsed : IsParsed i) (left : ℕ) (st : Pass1State)
    (room : HasRoom (suc left * 2 ^ 31) st.offsets) where
  lay_data-Lays :
      (kind : DirectiveKind)
      → validate_data_directive kind i.ops ≡ none
      → (lay_data kind i st).errors ≡ []
      → Lays st.current_section
          (length (data_bytes kind i.ops (pass1_section_offset st.current_section st.offsets)))
          st
          (lay_data kind i st)
  unfolding lay_data
  lay_data-Lays kind valid h =
      let section = st.current_section in
      let noted = record st {
        alignments = pass1_note_alignment section kind i.ops st.alignments;
      } in
      let labelled = label-Lays i.label noted h in
      let offset = pass1_section_offset section st.offsets in
      let n = length (data_bytes kind i.ops offset) in
      let (size, small) = data_directive_size_lem i.ops parsed.0 parsed.1 offset kind valid in
      let kept : (enter_label i.label noted).offsets ≡ st.offsets =
        labelled.lays ∙ grow_nothing section st.offsets in
      record {
        quiet = labelled.quiet;
        moves = labelled.moves;
        lays = rw (size, kept) (advance_by-grow section n left st.offsets small room);
      }

  pub data_line-Lays :
      (kind : DirectiveKind)
      → (data_line kind i st).errors ≡ []
      → Lays st.current_section
          (length (data_bytes kind i.ops (pass1_section_offset st.current_section st.offsets)))
          st
          (data_line kind i st)
  data_line-Lays kind h =
      let a = data_line-Accepts kind i st h in
      let same = data_line-lay_data kind i st a in
      let quiet : (lay_data kind i st).errors ≡ [] = rw same at h in
      rw same (lay_data-Lays kind a.valid quiet)

  pub instruction_line-Lays :
      (instruction_line i st).errors ≡ []
      → Lays st.current_section (code_size i st.current_section) st (instruction_line i st)
  unfolding instruction_line
  instruction_line-Lays h = elim (Bool-cases stays) [
    | inl e ↦
        let quiet = instruction_line-labelled i st h in
        rw (instruction_line, e) (label-Lays i.label st quiet)
    | inr e ↦
        let quiet = instruction_line-labelled i st h in
        let labelled = label-Lays i.label st quiet in
        let kept : (enter_label i.label st).offsets ≡ st.offsets =
          labelled.lays ∙ grow_nothing st.current_section st.offsets in
        let (positive, small) = laid_size-InBuffer i.opcode i.ops in
        let here : st.current_section ≡ SymbolSection.text =
          is_text st.current_section (ground arith) in
        rw (instruction_line, e)
          record {
            quiet = labelled.quiet;
            moves = labelled.moves;
            lays =
                rw (kept, here)
                  (advance-grow SymbolSection.text (laid_size i.opcode i.ops) left st.offsets
                    (omega arith) room);
          }
  ]
    where
      stays : Bool
      stays = opcode_is_invalid i.opcode || not (is_section st.current_section SymbolSection.text)

switched :
    (section : SymbolSection) (st : Pass1State)
    → st.errors ≡ []
    → Lays section 0 st (record st { current_section = section })
switched section st quiet = record {
  quiet = quiet;
  moves = refl;
  lays = sym (grow_nothing section st.offsets);
}

module _ (i : Instruction) (parsed : IsParsed i) (left : ℕ) (st : Pass1State)
    (room : HasRoom (suc left * 2 ^ 31) st.offsets) where
  line-Lays :
      (kind : DirectiveKind)
      → (pass1_line kind i st).errors ≡ []
      → Lays
          (emission_section kind st.current_section)
          (line_size kind i
            (emission_section kind st.current_section)
            (pass1_section_offset (emission_section kind st.current_section) st.offsets))
          st
          (pass1_line kind i st)
  unfolding pass1_line data_bytes
  line-Lays DirectiveKind.none h = instruction_line-Lays i parsed left st room h
  line-Lays DirectiveKind.text h = switched SymbolSection.text st h
  line-Lays DirectiveKind.data_section h = switched SymbolSection.data_section st h
  line-Lays DirectiveKind.read_only_data h = switched SymbolSection.read_only_data st h
  line-Lays DirectiveKind.bss h = switched SymbolSection.bss st h
  line-Lays DirectiveKind.external h = external-Lays i.ops st h
  line-Lays DirectiveKind.global h = visibility-Lays SymbolBinding.global i.ops st h
  line-Lays DirectiveKind.local h = visibility-Lays SymbolBinding.local i.ops st h
  line-Lays DirectiveKind.debug_file h = file-Lays _ st h
  line-Lays DirectiveKind.debug_file_bytes h = file-Lays _ st h
  line-Lays DirectiveKind.debug_location h = location-Lays _ st h
  line-Lays DirectiveKind.int8 h = data_line-Lays i parsed left st room DirectiveKind.int8 h
  line-Lays DirectiveKind.int16 h = data_line-Lays i parsed left st room DirectiveKind.int16 h
  line-Lays DirectiveKind.int32 h = data_line-Lays i parsed left st room DirectiveKind.int32 h
  line-Lays DirectiveKind.int64 h = data_line-Lays i parsed left st room DirectiveKind.int64 h
  line-Lays DirectiveKind.alignment h =
      data_line-Lays i parsed left st room DirectiveKind.alignment h
  line-Lays DirectiveKind.zero_space h =
      data_line-Lays i parsed left st room DirectiveKind.zero_space h
  line-Lays DirectiveKind.nul_string h =
      data_line-Lays i parsed left st room DirectiveKind.nul_string h
  line-Lays DirectiveKind.invalid h = data_line-Lays i parsed left st room DirectiveKind.invalid h

  pub step-Lays :
      (pass1_step i st).errors ≡ [] → Lays (next_section i st) (next_size i st) st (pass1_step i st)
  unfolding pass1_step
  step-Lays h = line-Lays i.directive_kind h
