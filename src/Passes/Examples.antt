-- ===== src/Passes/Examples.antt =====
-- Runs of the two passes on small programs, and the theorems of the passes on them.
use nazm.Prelude.{
  get_elem?, ◌++◌, ◌%◌, ◌≤◌, same_bytes, ℕ, ◌≡◌, refl, List, [], ◌∷◌, Option, none, some, pos,
  negsuc, true, false, drop, IsI32, ◌≤ℤ◌, ◌↔◌, arith,
}
use nazm.Encoder.Operands.{Operand, Text, imm, label}
use nazm.Encoder.Opcodes.{jmp, invalid}
use nazm.Symtable.{
  hash_from, bucket_of, find_in, find_entry, store_in, store, push_entry, symtable_init, fresh,
  symtable_insert_section, symtable_declare_binding, symtable_declare_external,
  symtable_is_external, symtable_lookup_ex,
}
use nazm.Encoder.Table.{encoder_encode, encoder_instruction_size, jump_size}
use nazm.Passes.Instruction.{DirectiveKind, Instruction, AllParsed}
use nazm.Passes.Layout.Written.{sizes_of}
use nazm.Passes.Layout.Program.{placements}
use nazm.Passes.Aligned.{alignment_line, alignment-multiple}
use nazm.Passes.Values.{Stands, data_value_fits_width-Stands}
use nazm.Passes.Records.{AllRecords}
use nazm.Passes.Locations.{debug_lines-AllRecords}
use nazm.Encoder.Decode.Jumps.{Transfer, read_jump, read_jump-encoder_encode}
use nazm.Passes.Reaches.{transfer_line, pass2_run-reaches}
use nazm.Passes.Agreement.{pass2_run-placements, symtable_lookup_ex-emission}
use nazm.Passes.Data.{
  string_total, data_directive_size, data_directive_size_at, is_data_directive,
  data_value_fits_width, validate_strings, validate_space, validate_alignment, validate_values,
  validate_integers, validate_data_directive,
}
use nazm.Passes.Debug.{
  debug_file_find, debug_file_push, path_digits, path_loop, path_valid, decode_debug_path_bytes,
  validate_debug_file_directive, validate_debug_location_directive, validate_debug_location_files,
}
use nazm.Passes.Reports.{
  Pass1Error, report_binding, report_chain, report_buckets, report_undefined_visibility_symbols,
}
use nazm.Passes.First.{
  pass1_start, after_request, enter_label, lay_data, after_validation, data_line, external_line,
  visibility_line, after_file, after_location, laid_size, instruction_line, pass1_line, pass1_step,
  pass1_loop, pass1_run,
}
use nazm.Passes.Offsets.{pass1_section_offset, add_size, pass1_note_alignment}
use nazm.Passes.Buffers.{
  buffer_append, repeated, buffer_fill, emit_strings, value_bytes, emit_integers, emit_padding,
  emit_zeros, emit_data_directive,
}
use nazm.Passes.Resolve.{
  opcode_uses_relative_label, branch_target_error, is_mov_reg_label,
  relative_label_relocation_offset, resolve_missing, resolve_jump, resolve_found, resolve_label,
  resolve_operand, resolve_operands, rip_relocations, resolve_values,
}
use nazm.Passes.Output.{pass2_start, EmissionSpan, go}
use nazm.Passes.Second.{
  after_data, note_line, after_text, resolve_data, write_data, write_nops, write_encoded,
  write_instruction, write_line, pass2_line, pass2_step, pass2_loop, pass2_end, pass2_run,
}
use nazm.Encoder.Flow.{enc_jmp}
use nazm.Encoder.Emit.{encoded, emit, ◌>>◌, emit32}
use nazm.Encoder.Bytes.{immediate_fits_i32}

abbrev loop_name : Text
loop_name = 0xD8 ∷ 0xA3 ∷ []

abbrev table_name : Text
table_name = 0xD8 ∷ 0xA8 ∷ []

abbrev jump : Instruction
jump = record {
  opcode = jmp;
  ops = label loop_name ∷ [];
  label = some loop_name;
  directive_kind = DirectiveKind.none;
}

abbrev directive : DirectiveKind → List Operand → Option Text → Instruction
directive kind ops name = record {
  opcode = invalid;
  ops = ops;
  label = name;
  directive_kind = kind;
}

abbrev table : Instruction
table = directive DirectiveKind.int64 (label loop_name ∷ []) (some table_name)

-- A jump to itself; then a byte, an aligned table with one address, and a text.
abbrev front : List Instruction
front =
    jump
    ∷ directive DirectiveKind.data_section [] none
    ∷ directive DirectiveKind.int8 (imm (pos 7) ∷ []) none
    ∷ []

abbrev back : List Instruction
back = table ∷ directive DirectiveKind.nul_string (Operand.string (65 ∷ 66 ∷ []) ∷ []) none ∷ []

abbrev program : List Instruction
program = front ++ (directive DirectiveKind.alignment (imm (pos 8) ∷ []) none ∷ back)

program-AllParsed : AllParsed program
program-AllParsed = (
  (omega arith, omega arith, λ h. absurd (ground arith)),
  (
    (omega arith, omega arith, λ h. absurd (ground arith)),
    (
      (omega arith, omega arith, λ h. absurd (ground arith)),
      (
        (omega arith, omega arith, λ h. absurd (ground arith)),
        (
          (omega arith, omega arith, λ h. absurd (ground arith)),
          ((omega arith, omega arith, λ h. absurd (ground arith)), tt),
        ),
      ),
    ),
  ),
)

-- The errors of the first pass.
errors_of : List Instruction → List Pass1Error
unfolding string_total data_directive_size data_directive_size_at is_data_directive
    data_value_fits_width validate_strings validate_space validate_alignment validate_values
    validate_integers validate_data_directive debug_file_find debug_file_push path_digits path_loop
    path_valid decode_debug_path_bytes validate_debug_file_directive
    validate_debug_location_directive validate_debug_location_files report_binding report_chain
    report_buckets report_undefined_visibility_symbols pass1_start after_request enter_label
    lay_data after_validation data_line external_line visibility_line after_file after_location
    laid_size instruction_line pass1_line pass1_step pass1_loop pass1_run add_size
    pass1_note_alignment hash_from bucket_of find_in find_entry store_in store push_entry
    symtable_init fresh symtable_insert_section symtable_declare_binding symtable_declare_external
    symtable_is_external symtable_lookup_ex same_bytes encoder_instruction_size jump_size
errors_of is = (pass1_run is).errors

errors_lem : errors_of program ≡ []
unfolding errors_of
errors_lem = refl

-- The bytes of the text and of the data.
written : List ℕ × List ℕ
unfolding string_total data_directive_size data_directive_size_at is_data_directive
    data_value_fits_width validate_strings validate_space validate_alignment validate_values
    validate_integers validate_data_directive debug_file_find debug_file_push path_digits path_loop
    path_valid decode_debug_path_bytes validate_debug_file_directive
    validate_debug_location_directive validate_debug_location_files report_binding report_chain
    report_buckets report_undefined_visibility_symbols pass1_start after_request enter_label
    lay_data after_validation data_line external_line visibility_line after_file after_location
    laid_size instruction_line pass1_line pass1_step pass1_loop pass1_run add_size
    pass1_note_alignment hash_from bucket_of find_in find_entry store_in store push_entry
    symtable_init fresh symtable_insert_section symtable_declare_binding symtable_declare_external
    symtable_is_external symtable_lookup_ex same_bytes encoder_instruction_size jump_size
    buffer_append repeated buffer_fill emit_strings value_bytes emit_integers emit_padding
    emit_zeros emit_data_directive opcode_uses_relative_label branch_target_error is_mov_reg_label
    relative_label_relocation_offset resolve_missing resolve_jump resolve_found resolve_label
    resolve_operand resolve_operands rip_relocations resolve_values pass2_start after_data note_line
    after_text resolve_data write_data write_nops write_encoded write_instruction write_line
    pass2_line pass2_step pass2_loop pass2_end pass2_run encoder_encode enc_jmp encoded emit ◌>>◌
    emit32 immediate_fits_i32
written = let end = (pass2_run program (pass1_run program)).1 in (end.text_bytes, end.data_bytes)

written_lem : written ≡ (
  0xE9 ∷ 0xFB ∷ 0xFF ∷ 0xFF ∷ 0xFF ∷ [],
  7 ∷ 0 ∷ 0 ∷ 0 ∷ 0 ∷ 0 ∷ 0 ∷ 0 ∷ 0 ∷ 0 ∷ 0 ∷ 0 ∷ 0 ∷ 0 ∷ 0 ∷ 0 ∷ 65 ∷ 66 ∷ 0 ∷ [],
)
unfolding written
written_lem = refl

pass2_run-placements_example :
    ((pass2_run program (pass1_run program)).0 ≡ placements program pass1_start)
    × (sizes_of (pass2_run program (pass1_run program)).1 ≡ (pass1_run program).offsets)
    × ((pass2_loop (pass1_run program) program pass2_start).1
        ≡ go 0 (pass2_run program (pass1_run program)).1)
unfolding errors_of
pass2_run-placements_example = pass2_run-placements program program-AllParsed (omega arith) refl

symtable_lookup_ex-emission_example :
    (e : EmissionSpan) × (get_elem? (pass2_run program (pass1_run program)).0 4 ≡ some e)
    × (symtable_lookup_ex (pass1_run program).symtable table_name ≡ some (pos e.offset, e.section))
unfolding errors_of
symtable_lookup_ex-emission_example =
    symtable_lookup_ex-emission program program-AllParsed (omega arith) refl 4 table table_name refl
      refl refl

alignment-multiple_example :
    (1 ≤ 8)
    × (pass1_section_offset
            (pass1_loop front pass1_start).current_section
            (pass1_step
              (alignment_line invalid (imm (pos 8) ∷ []) none)
              (pass1_loop front pass1_start)).offsets
          % 8
        ≡ 0)
    × (pass1_section_offset
            (pass1_loop front pass1_start).current_section
            (pass1_run program).alignments
          % 8
        ≡ 0)
unfolding errors_of
alignment-multiple_example =
    alignment-multiple front back invalid (imm (pos 8) ∷ []) none program-AllParsed (omega arith)
      refl

-- Two lines of a source file: the location of the first, and then none. The second jumps back.
abbrev located_front : List Instruction
located_front =
    directive DirectiveKind.debug_file (imm (pos 1) ∷ Operand.string (65 ∷ []) ∷ []) none
    ∷ directive DirectiveKind.debug_location (imm (pos 1) ∷ imm (pos 4) ∷ imm (pos 2) ∷ []) none
    ∷ jump
    ∷ directive DirectiveKind.debug_location (imm (pos 0) ∷ imm (pos 0) ∷ imm (pos 0) ∷ []) none
    ∷ []

abbrev located : List Instruction
located = located_front ++ (transfer_line jmp loop_name none ∷ [])

located_lines :
    (pass2_run located (pass1_run located)).1.debug_lines
    ≡ (record { offset = 0; file_id = 1; line = 4; column = 2 } ∷ [])
unfolding written
located_lines = refl

debug_lines-AllRecords_example :
    AllRecords (pass1_run located).debug_files (pass2_run located (pass1_run located)).1.debug_lines
unfolding errors_of
debug_lines-AllRecords_example = debug_lines-AllRecords located refl

data_value_fits_width-Stands_example :
    ((data_value_fits_width (negsuc 127) 8 ≡ true)
      ↔ ((negsuc 127 ≤ℤ negsuc 127) × (negsuc 127 ≤ℤ pos 255)))
    × ((data_value_fits_width (negsuc 127) 16 ≡ true)
        ↔ ((negsuc 32767 ≤ℤ negsuc 127) × (negsuc 127 ≤ℤ pos 65535)))
    × ((data_value_fits_width (negsuc 127) 32 ≡ true)
        ↔ ((negsuc 0x7fff_ffff ≤ℤ negsuc 127) × (negsuc 127 ≤ℤ pos 0xffff_ffff)))
    × (data_value_fits_width (negsuc 127) 64 ≡ true)
    × (data_value_fits_width (negsuc 127) 8 ≡ true → Stands 1 (negsuc 127))
    × (data_value_fits_width (negsuc 127) 16 ≡ true → Stands 2 (negsuc 127))
    × (data_value_fits_width (negsuc 127) 32 ≡ true → Stands 4 (negsuc 127))
    × Stands 8 (negsuc 127)
data_value_fits_width-Stands_example =
    data_value_fits_width-Stands (negsuc 127) (omega arith, omega arith)

located-AllParsed : AllParsed located
located-AllParsed = (
  (omega arith, omega arith, λ h. absurd (ground arith)),
  (
    (omega arith, omega arith, λ h. absurd (ground arith)),
    (
      (omega arith, omega arith, λ h. absurd (ground arith)),
      (
        (omega arith, omega arith, λ h. absurd (ground arith)),
        ((omega arith, omega arith, λ h. absurd (ground arith)), tt),
      ),
    ),
  ),
)

pass2_run-reaches_example :
    (rest : List ℕ) × (read_jump (drop 5 (pass2_run located (pass1_run located)).1.text_bytes)
      ≡ some (Transfer.always, negsuc 9, rest))
unfolding errors_of
pass2_run-reaches_example =
    pass2_run-reaches located_front [] jmp Transfer.always loop_name none 0 located-AllParsed
      (omega arith) refl refl refl refl (omega arith) (omega arith)

read_jump-encoder_encode_example :
    (((encoder_encode jmp (label loop_name ∷ []) (negsuc 9)).error ≡ false) ↔ IsI32 (negsuc 9))
    × (IsI32 (negsuc 9)
        → (more : List ℕ)
        → read_jump ((encoder_encode jmp (label loop_name ∷ []) (negsuc 9)).bytes ++ more)
          ≡ some (Transfer.always, negsuc 9, more))
read_jump-encoder_encode_example =
    read_jump-encoder_encode jmp Transfer.always loop_name (negsuc 9) refl
