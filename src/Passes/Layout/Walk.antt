-- ===== src/Passes/Layout/Walk.antt =====
-- The first pass of passes/pass1.c follows the layout, as long as it finds no error.
use nazm.Prelude.{
  ℕ, ◌≡◌, refl, sym, ◌∙◌, Bool, true, false, ◌&&◌, ◌||◌, not, List, [], ◌∷◌, Option, none, some,
  Bool-cases, inl, inr, arith,
}
use nazm.Encoder.Operands.{Operand, Text}
use nazm.Encoder.Opcodes.{Opcode}
use nazm.Symtable.{SymbolSection, SymbolBinding, SymbolTable}
use nazm.Passes.Instruction.{DirectiveKind, Instruction}
use nazm.Passes.Offsets.{is_section, pass1_note_alignment}
use nazm.Passes.Data.{DataError, is_data_directive, validate_data_directive}
use nazm.Passes.Debug.{DebugFile, DebugError}
use nazm.Passes.Reports.{Pass1Error}
use nazm.Passes.First.{
  Pass1State, after_validation, after_request, after_file, after_location, enter_label, lay_data,
  data_line, external_line, visibility_line, allowed_in_bss, laid_size, opcode_is_invalid,
  instruction_line,
}
use nazm.Encoder.Sizes.Estimate.{InBuffer, instruction_size-InBuffer}
use nazm.Passes.Layout.{grow, grow_nothing}

-- What a step without an error has done to the layout.
pub record Lays (section : SymbolSection) (n : ℕ) (st next : Pass1State) : Type 0 where
  pub quiet : st.errors ≡ []
  pub moves : next.current_section ≡ section
  pub lays : next.offsets ≡ grow section n st.offsets

-- A step that leaves the offsets and the section alone.
pub unmoved :
    (st next : Pass1State)
    → st.errors ≡ []
    → next.current_section ≡ st.current_section
    → next.offsets ≡ st.offsets
    → Lays st.current_section 0 st next
unmoved st next quiet same kept = record {
  quiet = quiet;
  moves = same;
  lays = kept ∙ sym (grow_nothing st.current_section st.offsets);
}

pub request-Lays :
    (e : Pass1Error) (reply : Bool × SymbolTable) (st : Pass1State)
    → (after_request e reply st).errors ≡ []
    → Lays st.current_section 0 st (after_request e reply st)
unfolding after_request
request-Lays e (true, table) st h = unmoved st _ h refl refl
request-Lays e (false, table) st h = absurd (ground arith)

pub file-Lays :
    (result : List DebugFile × Option DebugError) (st : Pass1State)
    → (after_file result st).errors ≡ []
    → Lays st.current_section 0 st (after_file result st)
unfolding after_file
file-Lays (files, none) st h = unmoved st _ h refl refl
file-Lays (files, some e) st h = absurd (ground arith)

pub location-Lays :
    (result : Option DebugError) (st : Pass1State)
    → (after_location result st).errors ≡ []
    → Lays st.current_section 0 st (after_location result st)
unfolding after_location
location-Lays none st h = unmoved st _ h refl refl
location-Lays (some e) st h = absurd (ground arith)

pub label-Lays :
    (label : Option Text) (st : Pass1State)
    → (enter_label label st).errors ≡ []
    → Lays st.current_section 0 st (enter_label label st)
unfolding enter_label
label-Lays none st h = unmoved st st h refl refl
label-Lays (some name) st h = request-Lays _ _ st h

pub external-Lays :
    (ops : List Operand) (st : Pass1State)
    → (external_line ops st).errors ≡ []
    → Lays st.current_section 0 st (external_line ops st)
unfolding external_line
external-Lays (Operand.label name ∷ []) st h = request-Lays _ _ st h
external-Lays _ st h = absurd (ground arith)

pub visibility-Lays :
    (binding : SymbolBinding) (ops : List Operand) (st : Pass1State)
    → (visibility_line binding ops st).errors ≡ []
    → Lays st.current_section 0 st (visibility_line binding ops st)
unfolding visibility_line
visibility-Lays binding (Operand.label name ∷ []) st h = request-Lays _ _ st h
visibility-Lays binding _ st h = absurd (ground arith)

pub is_text :
    (section : SymbolSection)
    → is_section section SymbolSection.text ≡ true
    → section ≡ SymbolSection.text
is_text SymbolSection.text h = refl
is_text SymbolSection.unknown h = absurd (ground arith)
is_text SymbolSection.data_section h = absurd (ground arith)
is_text SymbolSection.read_only_data h = absurd (ground arith)
is_text SymbolSection.bss h = absurd (ground arith)

pub laid_size-InBuffer : (op : Opcode) (ops : List Operand) → InBuffer (laid_size op ops)
unfolding laid_size
laid_size-InBuffer op ops = ground (arith, instruction_size-InBuffer op ops)

-- What an error-free data line has passed.
pub record Accepts (kind : DirectiveKind) (i : Instruction) (st : Pass1State) : Type 0 where
  pub is_data : is_data_directive kind ≡ true
  pub outside_text :
      is_section st.current_section SymbolSection.text
        || is_section st.current_section SymbolSection.unknown
      ≡ false
  pub valid : validate_data_directive kind i.ops ≡ none
  pub in_bss : is_section st.current_section SymbolSection.bss && not (allowed_in_bss kind) ≡ false

validation_passed :
    (result : Option DataError) (kind : DirectiveKind) (i : Instruction) (st : Pass1State)
    → (after_validation result kind i st).errors ≡ []
    → (result ≡ none)
      × (is_section st.current_section SymbolSection.bss && not (allowed_in_bss kind) ≡ false)
unfolding after_validation
validation_passed none kind i st h = ground arith
validation_passed (some e) kind i st h = absurd (ground arith)

line_passed :
    (kind : DirectiveKind) (i : Instruction) (st : Pass1State)
    → (data_line kind i st).errors ≡ []
    → (is_data_directive kind ≡ true)
      × (is_section st.current_section SymbolSection.text
            || is_section st.current_section SymbolSection.unknown
          ≡ false)
      × ((after_validation (validate_data_directive kind i.ops) kind i st).errors ≡ [])
unfolding data_line
line_passed kind i st h = ground arith

pub data_line-Accepts :
    (kind : DirectiveKind) (i : Instruction) (st : Pass1State)
    → (data_line kind i st).errors ≡ []
    → Accepts kind i st
data_line-Accepts kind i st h =
    let (is_data, outside, passed) = line_passed kind i st h in
    let (valid, in_bss) = validation_passed _ kind i st passed in
    record { is_data = is_data; outside_text = outside; valid = valid; in_bss = in_bss }

pub data_line-lay_data :
    (kind : DirectiveKind) (i : Instruction) (st : Pass1State)
    → Accepts kind i st
    → data_line kind i st ≡ lay_data kind i st
unfolding data_line after_validation
data_line-lay_data kind i st a =
    rw (data_line, a.is_data, a.outside_text, a.valid) (rw a.in_bss refl)

lay_data-quiet :
    (kind : DirectiveKind) (i : Instruction) (st : Pass1State)
    → (lay_data kind i st).errors ≡ []
    → st.errors ≡ []
unfolding lay_data
lay_data-quiet kind i st h =
    let noted = pass1_note_alignment st.current_section kind i.ops st.alignments in
    (label-Lays i.label (record st { alignments = noted }) h).quiet

pub data_line-quiet :
    (kind : DirectiveKind) (i : Instruction) (st : Pass1State)
    → (data_line kind i st).errors ≡ []
    → st.errors ≡ []
data_line-quiet kind i st h =
    let same = data_line-lay_data kind i st (data_line-Accepts kind i st h) in
    lay_data-quiet kind i st (rw same at h)

pub instruction_line-labelled :
    (i : Instruction) (st : Pass1State)
    → (instruction_line i st).errors ≡ []
    → (enter_label i.label st).errors ≡ []
unfolding instruction_line
instruction_line-labelled i st h =
    elim (Bool-cases
      (opcode_is_invalid i.opcode || not (is_section st.current_section SymbolSection.text))) [
        | inl e ↦ rw (instruction_line, e) at h
        | inr e ↦ rw (instruction_line, e) at h
      ]
