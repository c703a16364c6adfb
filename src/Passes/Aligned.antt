-- ===== src/Passes/Aligned.antt =====
-- What an alignment directive promises, in passes/pass1.c: the next offset is a multiple of its
-- boundary, and so is the alignment that the section ends with.
use nazm.Prelude.{
  ℕ, ◌+◌, ◌%◌, ◌^◌, ◌≤◌, ◌<◌, ◌≡◌, refl, true, false, ◌||◌, Option, List, [], ◌∷◌, ◌++◌, none, inl,
  inr, length, arith,
}
use nazm.Symtable.{SymbolSection}
use nazm.Encoder.Operands.{Operand, Text}
use nazm.Encoder.Opcodes.{Opcode}
use nazm.Passes.Instruction.{DirectiveKind, Instruction, AllParsed}
use nazm.Passes.Data.{validate_data_directive, padding, validate_alignment}
use nazm.Passes.Offsets.{
  Offsets, pass1_section_offset, set_offset, note_larger, has_alignment, is_section,
}
use nazm.Passes.First.{
  Pass1State, data_line, pass1_line, pass1_step, pass1_loop, pass1_start, pass1_run,
}
use nazm.Passes.Sizes.{boundary_of, data_bytes, length-repeated, validate_alignment-boundary}
use nazm.Passes.Powers.{IsPower, boundary-IsPower, power-divides, padding-multiple}
use nazm.Passes.Alignments.{
  IsBoundary, AreBoundaries, note_larger-bounds, note-boundary, data_line-alignments, loop-Grows,
}
use nazm.Passes.Layout.{Fits}
use nazm.Passes.Layout.Walk.{data_line-Accepts}
use nazm.Passes.Layout.Lines.{data_line-Lays}
use nazm.Passes.Middle.{
  reached, pass1_loop-append, middle-rest-quiet, middle-step-quiet, middle-IsParsed, middle-HasRoom,
}
use nazm.Passes.Agreement.{run-quiet}

Fits-section :
    (section : SymbolSection) (o caps : Offsets)
    → Fits o caps
    → pass1_section_offset section o ≤ pass1_section_offset section caps
Fits-section SymbolSection.text o caps f = f.0
Fits-section SymbolSection.data_section o caps f = f.1
Fits-section SymbolSection.read_only_data o caps f = f.2
Fits-section SymbolSection.bss o caps f = f.3
Fits-section SymbolSection.unknown o caps f = omega arith

section-IsBoundary :
    (section : SymbolSection) (o : Offsets)
    → AreBoundaries o
    → IsBoundary (pass1_section_offset section o)
section-IsBoundary SymbolSection.text o b = b.0
section-IsBoundary SymbolSection.data_section o b = b.1
section-IsBoundary SymbolSection.read_only_data o b = b.2
section-IsBoundary SymbolSection.bss o b = b.3
section-IsBoundary SymbolSection.unknown o b = inl refl

stored-offset :
    (section : SymbolSection) (n : ℕ) (o : Offsets)
    → is_section section SymbolSection.text || is_section section SymbolSection.unknown ≡ false
    → (pass1_section_offset section (set_offset section n o) ≡ n) × (has_alignment section ≡ true)
stored-offset SymbolSection.data_section n o h = (refl, refl)
stored-offset SymbolSection.read_only_data n o h = (refl, refl)
stored-offset SymbolSection.bss n o h = (refl, refl)
stored-offset SymbolSection.text n o h = absurd (ground arith)
stored-offset SymbolSection.unknown n o h = absurd (ground arith)

start-boundaries : AreBoundaries pass1_start.alignments
unfolding pass1_start
start-boundaries = (inl refl, inl refl, inl refl, inl refl)

-- A number that an alignment covers divides it.
covered :
    (boundary largest : ℕ)
    → IsPower boundary
    → 1 ≤ boundary
    → IsBoundary largest
    → boundary ≤ largest
    → largest % boundary ≡ 0
covered boundary largest p positive (inl nothing) h = absurd (omega arith)
covered boundary largest p positive (inr q) h = power-divides boundary largest p q h

-- One accepted alignment directive.
module _ (i : Instruction) (st : Pass1State)
    (h : (data_line DirectiveKind.alignment i st).errors ≡ []) where
  valid : validate_alignment i.ops ≡ none
  unfolding validate_data_directive
  valid = (data_line-Accepts DirectiveKind.alignment i st h).valid

  noted :
      pass1_section_offset st.current_section (data_line DirectiveKind.alignment i st).alignments
      ≡ note_larger (boundary_of i.ops) (pass1_section_offset st.current_section st.alignments)
  noted =
      let section = st.current_section in
      let a = data_line-Accepts DirectiveKind.alignment i st h in
      let (back, has) =
        stored-offset section
          (note_larger (boundary_of i.ops) (pass1_section_offset section st.alignments))
          st.alignments a.outside_text in
      rw
        (
          data_line-alignments i st DirectiveKind.alignment h,
          note-boundary section i.ops st.alignments valid,
          has,
        )
        back

-- A line with the alignment directive.
abbrev pub alignment_line : Opcode → List Operand → Option Text → Instruction
alignment_line op ops name = record {
  opcode = op;
  ops = ops;
  label = name;
  directive_kind = DirectiveKind.alignment;
}

module _ (before after : List Instruction) (op : Opcode) (ops : List Operand) (name : Option Text)
    (parsed : AllParsed (before ++ (alignment_line op ops name ∷ after)))
    (few : length (before ++ (alignment_line op ops name ∷ after)) < 2 ^ 32)
    (quiet : (pass1_run (before ++ (alignment_line op ops name ∷ after))).errors ≡ []) where
  abbrev line : Instruction
  line = alignment_line op ops name

  abbrev whole : List Instruction
  whole = before ++ (line ∷ after)

  line-quiet-here : (data_line DirectiveKind.alignment line (reached before)).errors ≡ []
  unfolding pass1_step pass1_line
  line-quiet-here = middle-step-quiet before line after quiet

  abbrev section : SymbolSection
  section = (reached before).current_section

  line-valid : (1 ≤ boundary_of ops) × (boundary_of ops ≤ 4096)
  line-valid = validate_alignment-boundary ops (valid line (reached before) line-quiet-here)

  offset-multiple :
      pass1_section_offset section (data_line DirectiveKind.alignment line (reached before)).offsets
        % boundary_of ops
      ≡ 0
  unfolding data_bytes
  offset-multiple =
      let offset = pass1_section_offset section (reached before).offsets in
      let amount = padding (boundary_of ops) offset in
      let a = data_line-Accepts DirectiveKind.alignment line (reached before) line-quiet-here in
      let laid =
        data_line-Lays line (middle-IsParsed before line after quiet parsed few) (length after)
          (reached before) (middle-HasRoom before line after quiet parsed few)
          DirectiveKind.alignment line-quiet-here in
      let counted = length-repeated 0 amount in
      let back =
        (stored-offset section (offset + amount) (reached before).offsets a.outside_text).0 in
      rw (laid.lays, counted, back) (padding-multiple (boundary_of ops) offset line-valid.0)

  alignment-covers :
      pass1_section_offset section (pass1_loop whole pass1_start).alignments % boundary_of ops ≡ 0
  unfolding pass1_loop pass1_step pass1_line
  alignment-covers =
      let next = pass1_step line (reached before) in
      let end = (pass1_loop whole pass1_start).alignments in
      let joined = pass1_loop-append before (line ∷ after) pass1_start in
      let later = loop-Grows after next (middle-rest-quiet before line after quiet) in
      let covers =
        (note_larger-bounds (boundary_of ops)
          (pass1_section_offset section (reached before).alignments)).1 in
      let at_line : boundary_of ops ≤ pass1_section_offset section next.alignments =
        rw (noted line (reached before) line-quiet-here) covers in
      let grown : pass1_section_offset section next.alignments ≤ pass1_section_offset section end =
        rw joined (Fits-section section next.alignments _ later.larger) in
      let boundaries =
        (loop-Grows whole pass1_start (run-quiet whole quiet)).boundaries start-boundaries in
      covered (boundary_of ops) (pass1_section_offset section end)
        (boundary-IsPower ops (valid line (reached before) line-quiet-here)) line-valid.0
        (section-IsBoundary section end boundaries) (omega arith)

  -- In a parsed program of fewer than 2 ^ 32 lines in which the first pass finds no error, take an
  -- alignment directive and the section that it stands in. Its operand is a boundary of at least 1;
  -- the offset of the section behind the directive is a multiple of the boundary; and so is the
  -- alignment that the first pass notes for the section in the end, for the writer to place it by.
  pub alignment-multiple :
      (1 ≤ boundary_of ops)
      × (pass1_section_offset
              (reached before).current_section
              (pass1_step line (reached before)).offsets
            % boundary_of ops
          ≡ 0)
      × (pass1_section_offset (reached before).current_section (pass1_run whole).alignments
            % boundary_of ops
          ≡ 0)
  unfolding pass1_run pass1_step pass1_line
  alignment-multiple = (line-valid.0, offset-multiple, alignment-covers)
