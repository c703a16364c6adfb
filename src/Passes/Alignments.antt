-- ===== src/Passes/Alignments.antt =====
-- The alignments that passes/pass1.c notes for its sections: powers of two that only grow.
use nazm.Prelude.{
  ℕ, ◌%◌, ◌^◌, ◌≤◌, ◌≡◌, ◌⊎◌, refl, Bool, true, false, List, [], ◌∷◌, Option, none, some,
  if◌then◌else◌, Bool-cases, inl, inr, pos, negsuc, ltb, arith,
}
use nazm.Encoder.Operands.{Operand, Text, imm}
use nazm.Symtable.{SymbolSection, SymbolBinding, SymbolTable}
use nazm.Passes.Instruction.{DirectiveKind, Instruction}
use nazm.Passes.Data.{validate_data_directive, validate_alignment}
use nazm.Passes.Debug.{DebugError, DebugFile}
use nazm.Passes.Offsets.{
  Offsets, pass1_section_offset, set_offset, note_larger, has_alignment, pass1_note_alignment,
}
use nazm.Passes.Reports.{Pass1Error}
use nazm.Passes.First.{
  Pass1State, after_request, after_file, after_location, enter_label, lay_data, data_line,
  external_line, visibility_line, instruction_line, pass1_line, pass1_step, pass1_loop,
}
use nazm.Passes.Sizes.{boundary_of, validate_alignment-boundary}
use nazm.Passes.Powers.{IsPower, boundary-IsPower}
use nazm.Passes.Layout.{Fits, Fits-trans}
use nazm.Passes.Layout.Walk.{data_line-Accepts, data_line-lay_data}
use nazm.Passes.Layout.Quiet.{loop-quiet}

-- Each alignment is 0, as at the start, or a power of two.
abbrev pub IsBoundary : ℕ → Type 0
IsBoundary n = (n ≡ 0) ⊎ IsPower n

abbrev pub AreBoundaries : Offsets → Type 0
AreBoundaries o =
    IsBoundary o.text × IsBoundary o.data_section × IsBoundary o.read_only_data × IsBoundary o.bss

-- The alignments grow, and stay powers of two.
pub record Grows (o next : Offsets) : Type 0 where
  pub larger : Fits o next
  pub boundaries : AreBoundaries o → AreBoundaries next

pub Grows-refl : (o : Offsets) → Grows o o
Grows-refl o = record {
  larger = (omega arith, omega arith, omega arith, omega arith);
  boundaries = λ b. b;
}

pub Grows-trans : (a b c : Offsets) → Grows a b → Grows b c → Grows a c
Grows-trans a b c g h = record {
  larger = Fits-trans a b c g.larger h.larger;
  boundaries = λ s. h.boundaries (g.boundaries s);
}

note_larger-IsBoundary :
    (boundary largest : ℕ)
    → IsPower boundary
    → IsBoundary largest
    → IsBoundary (note_larger boundary largest)
note_larger-IsBoundary boundary largest p b = elim (Bool-cases (ltb largest boundary)) [
  | inl less ↦ rw less (inr p)
  | inr more ↦ rw more b
]

-- The noted alignment is at least the boundary.
pub note_larger-bounds :
    (boundary largest : ℕ)
    → (largest ≤ note_larger boundary largest) × (boundary ≤ note_larger boundary largest)
note_larger-bounds boundary largest = ground arith

note-Grows :
    (section : SymbolSection) (boundary : ℕ) (o : Offsets)
    → IsPower boundary
    → Grows o (set_offset section (note_larger boundary (pass1_section_offset section o)) o)
note-Grows SymbolSection.text boundary o p =
    let noted = note_larger-bounds boundary o.text in
    record {
      larger = (noted.0, omega arith, omega arith, omega arith);
      boundaries = λ b. (note_larger-IsBoundary boundary o.text p b.0, b.1, b.2, b.3);
    }
note-Grows SymbolSection.data_section boundary o p =
    let noted = note_larger-bounds boundary o.data_section in
    record {
      larger = (omega arith, noted.0, omega arith, omega arith);
      boundaries = λ b. (b.0, note_larger-IsBoundary boundary o.data_section p b.1, b.2, b.3);
    }
note-Grows SymbolSection.read_only_data boundary o p =
    let noted = note_larger-bounds boundary o.read_only_data in
    record {
      larger = (omega arith, omega arith, noted.0, omega arith);
      boundaries = λ b. (b.0, b.1, note_larger-IsBoundary boundary o.read_only_data p b.2, b.3);
    }
note-Grows SymbolSection.bss boundary o p =
    let noted = note_larger-bounds boundary o.bss in
    record {
      larger = (omega arith, omega arith, omega arith, noted.0);
      boundaries = λ b. (b.0, b.1, b.2, note_larger-IsBoundary boundary o.bss p b.3);
    }
note-Grows SymbolSection.unknown boundary o p = Grows-refl o

-- What an accepted alignment directive notes.
pub note-boundary :
    (section : SymbolSection) (ops : List Operand) (o : Offsets)
    → validate_alignment ops ≡ none
    → pass1_note_alignment section DirectiveKind.alignment ops o ≡ (
        if has_alignment section
        then set_offset section (note_larger (boundary_of ops) (pass1_section_offset section o)) o
        else o)
unfolding pass1_note_alignment validate_alignment
note-boundary section (imm (pos v) ∷ []) o valid =
    let (positive, small) = validate_alignment-boundary (imm (pos v) ∷ []) valid in
    let same : v % 2 ^ 64 ≡ v = omega arith in rw same (ground arith)
note-boundary section (imm (negsuc v) ∷ []) o valid = absurd (ground arith)
note-boundary section [] o valid = absurd (ground arith)
note-boundary section (op ∷ p ∷ ops) o valid = absurd (ground arith)
note-boundary section (op ∷ []) o valid = absurd (ground arith)

if-Grows : (c : Bool) (o next : Offsets) → Grows o next → Grows o (if c then next else o)
if-Grows true o next g = g
if-Grows false o next g = Grows-refl o

noted-Grows :
    (section : SymbolSection) (kind : DirectiveKind) (ops : List Operand) (o : Offsets)
    → validate_data_directive kind ops ≡ none
    → Grows o (pass1_note_alignment section kind ops o)
unfolding pass1_note_alignment validate_data_directive
noted-Grows section DirectiveKind.alignment ops o valid = rw (note-boundary section ops o valid) (
    if-Grows (has_alignment section) o _
      (note-Grows section (boundary_of ops) o (boundary-IsPower ops valid)))
noted-Grows section _ ops o valid = Grows-refl o

after_request-alignments :
    (e : Pass1Error) (reply : Bool × SymbolTable) (st : Pass1State)
    → (after_request e reply st).alignments ≡ st.alignments
unfolding after_request
after_request-alignments e (true, table) st = refl
after_request-alignments e (false, table) st = refl

label-alignments :
    (label : Option Text) (st : Pass1State) → (enter_label label st).alignments ≡ st.alignments
unfolding enter_label
label-alignments none st = refl
label-alignments (some name) st = after_request-alignments _ _ st

same-Grows : (o next : Offsets) → next ≡ o → Grows o next
same-Grows o next same = rw same (Grows-refl o)

file-Grows :
    (result : List DebugFile × Option DebugError) (st : Pass1State)
    → Grows st.alignments (after_file result st).alignments
unfolding after_file
file-Grows (files, none) st = Grows-refl st.alignments
file-Grows (files, some e) st = Grows-refl st.alignments

location-Grows :
    (result : Option DebugError) (st : Pass1State)
    → Grows st.alignments (after_location result st).alignments
unfolding after_location
location-Grows none st = Grows-refl st.alignments
location-Grows (some e) st = Grows-refl st.alignments

external-Grows :
    (ops : List Operand) (st : Pass1State) → Grows st.alignments (external_line ops st).alignments
unfolding external_line
external-Grows (Operand.label name ∷ []) st =
    same-Grows st.alignments _ (after_request-alignments _ _ st)
external-Grows _ st = Grows-refl st.alignments

visibility-Grows :
    (binding : SymbolBinding) (ops : List Operand) (st : Pass1State)
    → Grows st.alignments (visibility_line binding ops st).alignments
unfolding visibility_line
visibility-Grows binding (Operand.label name ∷ []) st =
    same-Grows st.alignments _ (after_request-alignments _ _ st)
visibility-Grows binding _ st = Grows-refl st.alignments

module _ (i : Instruction) (st : Pass1State) where
  instruction-Grows : Grows st.alignments (instruction_line i st).alignments
  unfolding instruction_line
  instruction-Grows =
      let kept = label-alignments i.label st in same-Grows st.alignments _ (ground arith)

  -- What a data line notes.
  pub data_line-alignments :
      (kind : DirectiveKind)
      → (data_line kind i st).errors ≡ []
      → (data_line kind i st).alignments
        ≡ pass1_note_alignment st.current_section kind i.ops st.alignments
  unfolding lay_data
  data_line-alignments kind h =
      let noted = pass1_note_alignment st.current_section kind i.ops st.alignments in
      rw (data_line-lay_data kind i st (data_line-Accepts kind i st h))
        (label-alignments i.label (record st { alignments = noted }))

  data_line-Grows :
      (kind : DirectiveKind)
      → (data_line kind i st).errors ≡ []
      → Grows st.alignments (data_line kind i st).alignments
  data_line-Grows kind h = rw (data_line-alignments kind h) (
      noted-Grows st.current_section kind i.ops st.alignments (data_line-Accepts kind i st h).valid)

  line-Grows :
      (kind : DirectiveKind)
      → (pass1_line kind i st).errors ≡ []
      → Grows st.alignments (pass1_line kind i st).alignments
  unfolding pass1_line
  line-Grows DirectiveKind.none h = instruction-Grows
  line-Grows DirectiveKind.text h = Grows-refl st.alignments
  line-Grows DirectiveKind.data_section h = Grows-refl st.alignments
  line-Grows DirectiveKind.read_only_data h = Grows-refl st.alignments
  line-Grows DirectiveKind.bss h = Grows-refl st.alignments
  line-Grows DirectiveKind.external h = external-Grows i.ops st
  line-Grows DirectiveKind.global h = visibility-Grows SymbolBinding.global i.ops st
  line-Grows DirectiveKind.local h = visibility-Grows SymbolBinding.local i.ops st
  line-Grows DirectiveKind.debug_file h = file-Grows _ st
  line-Grows DirectiveKind.debug_file_bytes h = file-Grows _ st
  line-Grows DirectiveKind.debug_location h = location-Grows _ st
  line-Grows DirectiveKind.int8 h = data_line-Grows DirectiveKind.int8 h
  line-Grows DirectiveKind.int16 h = data_line-Grows DirectiveKind.int16 h
  line-Grows DirectiveKind.int32 h = data_line-Grows DirectiveKind.int32 h
  line-Grows DirectiveKind.int64 h = data_line-Grows DirectiveKind.int64 h
  line-Grows DirectiveKind.alignment h = data_line-Grows DirectiveKind.alignment h
  line-Grows DirectiveKind.zero_space h = data_line-Grows DirectiveKind.zero_space h
  line-Grows DirectiveKind.nul_string h = data_line-Grows DirectiveKind.nul_string h
  line-Grows DirectiveKind.invalid h = data_line-Grows DirectiveKind.invalid h

pub loop-Grows :
    (is : List Instruction) (st : Pass1State)
    → (pass1_loop is st).errors ≡ []
    → Grows st.alignments (pass1_loop is st).alignments
unfolding pass1_loop pass1_step
loop-Grows [] st h = Grows-refl st.alignments
loop-Grows (i ∷ is) st h =
    let next = pass1_step i st in
    Grows-trans st.alignments next.alignments _
      (line-Grows i st i.directive_kind (loop-quiet is next h)) (loop-Grows is next h)
