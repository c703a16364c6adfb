-- ===== src/Passes/Second.antt =====
-- The second pass, passes/pass2.c: it encodes the instructions at the offsets of the first pass. The
-- emissions are in the order of the instructions, and those behind an early return are zeroed memory.
use nazm.Prelude.{
  ℕ, ◌-◌, Bool, true, false, ◌&&◌, ◌||◌, not, List, [], ◌∷◌, none, some, ◌==◌, if◌then◌else◌, ℤ,
  pos, pos_part, ltb_ℤ, to_unsigned, length,
}
use nazm.Encoder.Operands.{Operand, imm}
use nazm.Encoder.Opcodes.{Opcode}
use nazm.Encoder.Emit.{EncodedInstruction}
use nazm.Encoder.Table.{encoder_encode}
use nazm.Symtable.{SymbolSection, SymbolTable}
use nazm.Passes.Instruction.{DirectiveKind, Instruction}
use nazm.Passes.Data.{data_directive_size_at}
use nazm.Passes.Offsets.{Offsets, add_size, is_section}
use nazm.Passes.First.{Pass1State, laid_size, opcode_is_invalid}
use nazm.Passes.Buffers.{buffer_append, buffer_fill, emit_data_directive}
use nazm.Passes.Output.{
  EmissionSpan, Pass2State, pass2_start, pass2_section_size, pass2_section_bytes, set_section_bytes,
  pass2_section_capacity, pass2_relocation_section, emission_of, blank_emissions, Flow,
  add_internal_error, go, stop,
}
use nazm.Passes.Resolve.{
  RelocationSection, Pass2Error, branch_target_error, Resolution, resolve_operands, rip_relocations,
  resolve_values,
}

abbrev pub store_location : List Operand → Pass2State → Pass2State
store_location (imm file ∷ imm line ∷ imm column ∷ []) st = record st {
  debug_file = to_unsigned 32 file;
  debug_line = to_unsigned 32 line;
  debug_column = to_unsigned 32 column;
}
store_location _ st = st

-- The comparison behind `emit_data_directive`.
unfoldable pub after_data : SymbolSection → ℤ → ℕ → Bool × List ℕ → Pass2State → Flow
after_data section expected before (false, bytes) st =
    add_internal_error Pass2Error.data_overflow 0 (set_section_bytes section bytes st)
after_data section expected before (true, bytes) st =
    let actual = length bytes - before in
    let stored = set_section_bytes section bytes st in
    if not (actual == to_unsigned 64 expected)
    then add_internal_error (Pass2Error.data_size_differs expected actual) actual stored
    else go actual stored

abbrev pub resolution_of : Pass2State → Resolution
resolution_of st = record {
  relocations = st.relocations;
  errors = st.errors;
  target = pos 0;
  failed = false;
}

abbrev pub with_resolution : Resolution → Pass2State → Pass2State
with_resolution r st = record st { relocations = r.relocations; errors = r.errors }

-- `push_debug_line`, where a location is in force.
unfoldable pub note_line : Pass2State → Pass2State
note_line st = record st {
  debug_lines =
      if not (st.debug_file == 0) && not (st.debug_line == 0)
      then record {
        offset = length st.text_bytes;
        file_id = st.debug_file;
        line = st.debug_line;
        column = st.debug_column;
      }
        ∷ st.debug_lines
      else st.debug_lines;
}

-- The filling of an instruction of `size` bytes that cannot be encoded, and the append of one that
-- can.
unfoldable pub after_text : ℕ → Bool × List ℕ → Pass2State → Flow
after_text size (false, bytes) st = add_internal_error Pass2Error.text_overflow 0 st
after_text size (true, bytes) st = go size (record st { text_bytes = bytes })

abbrev pub encoding_error : Opcode → List Operand → Pass2Error
encoding_error op ops = elim (branch_target_error op ops) [
  | some e ↦ e
  | none ↦ Pass2Error.encoding_failed op
]

-- The labels of an `int64` directive at the offset `before` of its section.
unfoldable pub resolve_data :
    SymbolTable → DirectiveKind → RelocationSection → ℕ → List Operand → Resolution → Resolution
unfolding resolve_values
resolve_data symtable DirectiveKind.int64 section before ops r =
    resolve_values symtable section before 0 ops r
resolve_data symtable kind section before ops r = r

-- The two arguments of `pass2_run`: the table and the sizes of the first pass.
module _ (pass1 : Pass1State) where
  -- A data directive in the current section.
  unfoldable pub write_data : SymbolSection → DirectiveKind → List Operand → Pass2State → Flow
  unfolding add_size
  write_data section kind ops st =
      let before = pass2_section_size section st in
      let expected = data_directive_size_at kind ops before in
      let resolved =
        with_resolution
          (resolve_data pass1.symtable kind (pass2_relocation_section section) before ops
            (resolution_of st))
          st in
      if ltb_ℤ expected (pos 0)
      then add_internal_error Pass2Error.negative_size 0 st
      else if is_section section SymbolSection.bss
      then go 0 (record st { bss_size = add_size before (pos_part expected) })
      else after_data section expected before
          (emit_data_directive (pass2_section_capacity pass1.offsets section) kind ops
            (pass2_section_bytes section resolved))
          resolved

  unfoldable pub write_nops : ℕ → Pass2State → Flow
  write_nops size st = after_text size (buffer_fill pass1.offsets.text st.text_bytes 0x90 size) st

  -- From the test of `enc.error` on.
  unfoldable pub write_encoded : Opcode → List Operand → ℕ → EncodedInstruction → Pass2State → Flow
  unfolding branch_target_error
  write_encoded op ops size enc st =
      let failed = write_nops size (record st { errors = encoding_error op ops ∷ st.errors }) in
      if enc.error
      then failed
      else if not (enc.len == size)
      then add_internal_error (Pass2Error.instruction_size_differs size enc.len) 0 st
      else elim (rip_relocations (length st.text_bytes) enc.len ops st.relocations) [
        | none ↦ add_internal_error Pass2Error.rip_displacement_missing 0 st
        | some relocations ↦
            after_text enc.len (buffer_append pass1.offsets.text st.text_bytes enc.bytes)
              (record st { relocations = relocations })
      ]

  unfoldable pub write_instruction : Opcode → List Operand → Pass2State → Flow
  write_instruction op ops st =
      let size = laid_size op ops in
      let noted = note_line st in
      let r =
        resolve_operands pass1.symtable op ops (length noted.text_bytes) size 0 ops
          (resolution_of noted) in
      let resolved = with_resolution r noted in
      if r.failed
      then write_nops size resolved
      else write_encoded op ops size (encoder_encode op ops r.target) resolved

  -- A line without a directive.
  unfoldable pub write_line : Instruction → Pass2State → Flow
  write_line i st =
      if opcode_is_invalid i.opcode || not (is_section st.current_section SymbolSection.text)
      then go 0 st
      else write_instruction i.opcode i.ops st

  -- The body of the loop, for an instruction of the given `directive_kind`.
  unfoldable pub pass2_line : DirectiveKind → Instruction → Pass2State → Flow
  pass2_line DirectiveKind.none i st = write_line i st
  pass2_line DirectiveKind.text i st = go 0 (record st { current_section = SymbolSection.text })
  pass2_line DirectiveKind.data_section i st =
      go 0 (record st { current_section = SymbolSection.data_section })
  pass2_line DirectiveKind.read_only_data i st =
      go 0 (record st { current_section = SymbolSection.read_only_data })
  pass2_line DirectiveKind.bss i st = go 0 (record st { current_section = SymbolSection.bss })
  pass2_line DirectiveKind.external i st = go 0 st
  pass2_line DirectiveKind.global i st = go 0 st
  pass2_line DirectiveKind.local i st = go 0 st
  pass2_line DirectiveKind.debug_file i st = go 0 st
  pass2_line DirectiveKind.debug_file_bytes i st = go 0 st
  pass2_line DirectiveKind.debug_location i st = go 0 (store_location i.ops st)
  pass2_line kind i st =
      if is_section st.current_section SymbolSection.text
      then go 0 st
      else write_data st.current_section kind i.ops st

  unfoldable pub pass2_step : Instruction → Pass2State → Flow
  pass2_step i st = pass2_line i.directive_kind i st

  unfoldable pub pass2_loop : List Instruction → Pass2State → List EmissionSpan × Flow
  unfolding pass2_step
  pass2_loop [] st = ([], go 0 st)
  pass2_loop (i ∷ is) st = elim (pass2_step i st) [
    | stop size end ↦ (emission_of i st size ∷ blank_emissions is, stop size end)
    | go size next ↦ let (spans, end) = pass2_loop is next in (emission_of i st size ∷ spans, end)
  ]

-- The comparison of the sizes at the end.
abbrev pub sizes_differ : Offsets → Pass2State → Bool
sizes_differ caps st =
    not (length st.text_bytes == caps.text)
    || not (length st.data_bytes == caps.data_section)
    || not (length st.read_only_data_bytes == caps.read_only_data)
    || not (st.bss_size == caps.bss)

unfoldable pub pass2_end : Offsets → Flow → Pass2State
pass2_end caps (stop size st) = st
pass2_end caps (go size st) =
    if sizes_differ caps st then record st { errors = Pass2Error.sizes_differ ∷ st.errors } else st

unfoldable pub pass2_run : List Instruction → Pass1State → List EmissionSpan × Pass2State
unfolding pass2_start
pass2_run is pass1 =
    let (spans, end) = pass2_loop pass1 is pass2_start in (spans, pass2_end pass1.offsets end)
