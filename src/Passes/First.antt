-- ===== src/Passes/First.antt =====
-- The first pass, passes/pass1.c: it walks over the instructions, adds up the size of each section,
-- and enters labels, bindings and external names in the symbol table.
use nazm.Prelude.{
  none, some, ℕ, Bool, true, false, ◌&&◌, ◌||◌, not, List, [], ◌∷◌, Option, none, some, ◌==◌,
  if◌then◌else◌, of_bits,
}
use nazm.Encoder.Operands.{Operand, Text}
use nazm.Encoder.Opcodes.{Opcode}
use nazm.Encoder.Emit.{max_instruction_bytes}
use nazm.Encoder.Table.{encoder_instruction_size}
use nazm.Symtable.{
  SymbolSection, SymbolBinding, SymbolTable, symtable_init, symtable_insert_section,
  symtable_declare_binding, symtable_declare_external,
}
use nazm.Passes.Offsets.{
  Offsets, pass1_section_offset, add_size, advance, advance_by, no_offsets, is_section,
  pass1_note_alignment,
}
use nazm.Passes.Reports.{Pass1Error, report_undefined_visibility_symbols, report_locations}
use nazm.Passes.Instruction.{DirectiveKind, Instruction}
use nazm.Passes.Data.{DataError, data_directive_size_at, is_data_directive, validate_data_directive}
use nazm.Passes.Debug.{
  DebugError, DebugFile, validate_debug_file_directive, validate_debug_location_directive,
  validate_debug_location_files,
}

-- The result and the local variables of `pass1_run`; the last error comes first. Of the fields of
-- `alignments`, the code has no `text`, and it stays 0.
pub record Pass1State : Type 0 where
  pub symtable : SymbolTable
  pub offsets : Offsets
  pub current_section : SymbolSection
  pub alignments : Offsets
  pub debug_files : List DebugFile
  pub errors : List Pass1Error

unfoldable pub pass1_start : Pass1State
pass1_start = record {
  symtable = symtable_init;
  offsets = no_offsets;
  current_section = SymbolSection.text;
  alignments = no_offsets;
  debug_files = [];
  errors = [];
}

abbrev pub report : Pass1Error → Pass1State → Pass1State
report e st = record st { errors = e ∷ st.errors }

-- The table that an operation gives, and the error where it answers false.
unfoldable pub after_request : Pass1Error → Bool × SymbolTable → Pass1State → Pass1State
after_request e (true, table) st = record st { symtable = table }
after_request e (false, table) st = record st { symtable = table; errors = e ∷ st.errors }

-- `if (instr->label)`: the label at the current offset of its section.
unfoldable pub enter_label : Option Text → Pass1State → Pass1State
unfolding after_request
enter_label none st = st
enter_label (some name) st =
    after_request (Pass1Error.label_repeated name)
      (symtable_insert_section st.symtable name st.current_section
        (of_bits 64 (pass1_section_offset st.current_section st.offsets)))
      st

-- The data-emitting directive: size, alignment, label, offset.
unfoldable pub lay_data : DirectiveKind → Instruction → Pass1State → Pass1State
unfolding add_size
lay_data kind i st =
    let section = st.current_section in
    let size = data_directive_size_at kind i.ops (pass1_section_offset section st.offsets) in
    let noted = record st { alignments = pass1_note_alignment section kind i.ops st.alignments } in
    let labelled = enter_label i.label noted in
    record labelled { offsets = advance_by size section labelled.offsets }

abbrev pub allowed_in_bss : DirectiveKind → Bool
allowed_in_bss DirectiveKind.zero_space = true
allowed_in_bss DirectiveKind.alignment = true
allowed_in_bss _ = false

-- Behind `validate_data_directive`.
unfoldable pub after_validation :
    Option DataError → DirectiveKind → Instruction → Pass1State → Pass1State
after_validation (some e) kind i st = report (Pass1Error.data_rejected e) st
after_validation none kind i st =
    if is_section st.current_section SymbolSection.bss && not (allowed_in_bss kind)
    then report Pass1Error.space_section_restricted st
    else lay_data kind i st

-- From `is_data_directive` on.
unfoldable pub data_line : DirectiveKind → Instruction → Pass1State → Pass1State
data_line kind i st =
    let section = st.current_section in
    if not (is_data_directive kind)
    then report Pass1Error.directive_unknown st
    else if is_section section SymbolSection.text || is_section section SymbolSection.unknown
    then report Pass1Error.data_outside_section st
    else after_validation (validate_data_directive kind i.ops) kind i st

unfoldable pub external_line : List Operand → Pass1State → Pass1State
external_line (Operand.label name ∷ []) st =
    after_request (Pass1Error.external_conflict name) (symtable_declare_external st.symtable name)
      st
external_line _ st = report Pass1Error.external_operands st

unfoldable pub visibility_line : SymbolBinding → List Operand → Pass1State → Pass1State
visibility_line binding (Operand.label name ∷ []) st =
    after_request (Pass1Error.binding_conflict name)
      (symtable_declare_binding st.symtable name binding) st
visibility_line binding _ st = report Pass1Error.binding_operands st

-- The files and the errors that a directive leaves.
unfoldable pub after_file : List DebugFile × Option DebugError → Pass1State → Pass1State
after_file (files, none) st = record st { debug_files = files }
after_file (files, some e) st = record st {
  debug_files = files;
  errors = Pass1Error.debug_rejected e ∷ st.errors;
}

unfoldable pub after_location : Option DebugError → Pass1State → Pass1State
after_location none st = st
after_location (some e) st = report (Pass1Error.debug_rejected e) st

-- `sz`, in both passes.
unfoldable pub laid_size : Opcode → List Operand → ℕ
laid_size op ops =
    let size = encoder_instruction_size op ops in if size == 0 then max_instruction_bytes else size

abbrev pub opcode_is_invalid : Opcode → Bool
opcode_is_invalid Opcode.invalid = true
opcode_is_invalid _ = false

-- A line without a directive.
unfoldable pub instruction_line : Instruction → Pass1State → Pass1State
unfolding add_size
instruction_line i st =
    let labelled = enter_label i.label st in
    if opcode_is_invalid i.opcode || not (is_section st.current_section SymbolSection.text)
    then labelled
    else record labelled {
      offsets = advance SymbolSection.text (laid_size i.opcode i.ops) labelled.offsets;
    }

-- The body of the loop, for an instruction of the given `directive_kind`.
unfoldable pub pass1_line : DirectiveKind → Instruction → Pass1State → Pass1State
pass1_line DirectiveKind.none i st = instruction_line i st
pass1_line DirectiveKind.text i st = record st { current_section = SymbolSection.text }
pass1_line DirectiveKind.data_section i st = record st {
  current_section = SymbolSection.data_section;
}
pass1_line DirectiveKind.read_only_data i st = record st {
  current_section = SymbolSection.read_only_data;
}
pass1_line DirectiveKind.bss i st = record st { current_section = SymbolSection.bss }
pass1_line DirectiveKind.external i st = external_line i.ops st
pass1_line DirectiveKind.debug_file i st =
    after_file (validate_debug_file_directive st.debug_files DirectiveKind.debug_file i.ops) st
pass1_line DirectiveKind.debug_file_bytes i st =
    after_file (validate_debug_file_directive st.debug_files DirectiveKind.debug_file_bytes i.ops)
      st
pass1_line DirectiveKind.debug_location i st =
    after_location (validate_debug_location_directive i.ops) st
pass1_line DirectiveKind.global i st = visibility_line SymbolBinding.global i.ops st
pass1_line DirectiveKind.local i st = visibility_line SymbolBinding.local i.ops st
pass1_line kind i st = data_line kind i st

unfoldable pub pass1_step : Instruction → Pass1State → Pass1State
pass1_step i st = pass1_line i.directive_kind i st

unfoldable pub pass1_loop : List Instruction → Pass1State → Pass1State
pass1_loop [] st = st
pass1_loop (i ∷ is) st = pass1_loop is (pass1_step i st)

-- The offsets at the end are the sizes of the sections.
unfoldable pub pass1_run : List Instruction → Pass1State
unfolding pass1_start
pass1_run is =
    let st = pass1_loop is pass1_start in
    record st {
      errors =
          report_locations (validate_debug_location_files is st.debug_files)
            (report_undefined_visibility_symbols is st.symtable st.errors);
    }
