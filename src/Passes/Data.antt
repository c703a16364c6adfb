-- ===== src/Passes/Data.antt =====
-- The data directives of passes/pass1.c: their operands and their sizes. Of an instruction, the
-- functions take its `directive_kind` and its operands.
use nazm.Prelude.{
  ℕ, ◌+◌, ◌-◌, ◌*◌, ◌%◌, ◌^◌, Bool, true, false, ◌||◌, not, List, [], ◌∷◌, Option, none, some, ltb,
  leb, ◌==◌, if◌then◌else◌, length, bit_and, ℤ, pos, negsuc, leb_ℤ, ltb_ℤ, to_unsigned, to_i32,
  of_bits,
}
use nazm.Encoder.Operands.{Operand, imm, label, string}
use nazm.Passes.Instruction.{
  DirectiveKind, int8, int16, int32, int64, alignment, zero_space, nul_string,
}

-- A data directive is rejected with one of these messages.
pub data DataError : Type 0 where
  string_missing string_expected : DataError
  space_operands space_out_of_range : DataError
  alignment_operands alignment_out_of_range : DataError
  value_missing : DataError
  value_expected value_too_wide : ℕ → DataError

-- The low 32 bits of the `int` that the loop over the strings adds up.
unfoldable pub string_total : ℕ → List Operand → ℕ
string_total total [] = total
string_total total (string s ∷ ops) = string_total ((total + length s % 2 ^ 32 + 1) % 2 ^ 32) ops
string_total total (_ ∷ ops) = string_total total ops

-- `op_count > 0 ? op_count * size : 0`
abbrev pub values_size : ℕ → List Operand → ℤ
values_size size ops = if ltb 0 (length ops) then pos (length ops * size) else pos 0

abbrev pub space_size : List Operand → ℤ
space_size (imm v ∷ _) = to_i32 v
space_size _ = pos 0

unfoldable pub data_directive_size : DirectiveKind → List Operand → ℤ
unfolding string_total
data_directive_size nul_string ops = of_bits 32 (string_total 0 ops)
data_directive_size int8 ops = values_size 1 ops
data_directive_size int16 ops = values_size 2 ops
data_directive_size int32 ops = values_size 4 ops
data_directive_size int64 ops = values_size 8 ops
data_directive_size zero_space ops = space_size ops
data_directive_size _ ops = pos 0

-- `(alignment - (offset % alignment)) % alignment`
abbrev pub padding : ℕ → ℕ → ℕ
padding boundary offset = (boundary - offset % boundary) % boundary

-- The size of an alignment directive with the operands `ops`.
abbrev pub padding_size : List Operand → ℕ → ℤ
padding_size (imm v ∷ []) offset =
    if ltb_ℤ (pos 0) v then to_i32 (pos (padding (to_unsigned 64 v) offset)) else pos 0
padding_size _ offset = pos 0

unfoldable pub data_directive_size_at : DirectiveKind → List Operand → ℕ → ℤ
unfolding data_directive_size
data_directive_size_at alignment ops section_offset = padding_size ops section_offset
data_directive_size_at kind ops section_offset = data_directive_size kind ops

unfoldable pub is_data_directive : DirectiveKind → Bool
is_data_directive int8 = true
is_data_directive int16 = true
is_data_directive int32 = true
is_data_directive int64 = true
is_data_directive alignment = true
is_data_directive zero_space = true
is_data_directive nul_string = true
is_data_directive _ = false

unfoldable pub data_value_fits_width : ℤ → ℕ → Bool
data_value_fits_width (negsuc v) bits =
    if bits == 64 then true else leb_ℤ (negsuc (2 ^ (bits - 1) - 1)) (negsuc v)
data_value_fits_width (pos v) bits =
    if bits == 64 then true else leb (to_unsigned 64 (pos v)) (2 ^ bits - 1)

-- `bits` of `validate_data_directive`.
abbrev pub value_bits : DirectiveKind → ℕ
value_bits int8 = 8
value_bits int16 = 16
value_bits int32 = 32
value_bits int64 = 64
value_bits _ = 0

abbrev pub all_strings : List Operand → Bool
all_strings [] = true
all_strings (string s ∷ ops) = all_strings ops
all_strings (_ ∷ ops) = false

unfoldable pub validate_strings : List Operand → Option DataError
validate_strings [] = some DataError.string_missing
validate_strings ops = if all_strings ops then none else some DataError.string_expected

unfoldable pub validate_space : List Operand → Option DataError
validate_space (imm v ∷ []) =
    if ltb_ℤ v (pos 0) || ltb_ℤ (pos 0x7fff_ffff) v then some DataError.space_out_of_range else none
validate_space _ = some DataError.space_operands

abbrev pub power_of_two : ℕ → Bool
power_of_two v = bit_and v (v - 1) == 0

unfoldable pub validate_alignment : List Operand → Option DataError
validate_alignment (imm v ∷ []) =
    if ltb_ℤ v (pos 1) || ltb_ℤ (pos 4096) v || not (power_of_two (to_unsigned 64 v))
    then some DataError.alignment_out_of_range
    else none
validate_alignment _ = some DataError.alignment_operands

-- The loop over the values of an integer directive.
unfoldable pub validate_values : ℕ → List Operand → Option DataError
unfolding data_value_fits_width
validate_values bits [] = none
validate_values bits (label l ∷ ops) =
    let rest = validate_values bits ops in
    if bits == 64 then rest else some (DataError.value_expected bits)
validate_values bits (imm v ∷ ops) =
    let rest = validate_values bits ops in
    if data_value_fits_width v bits then rest else some (DataError.value_too_wide bits)
validate_values bits (_ ∷ ops) = some (DataError.value_expected bits)

unfoldable pub validate_integers : ℕ → List Operand → Option DataError
unfolding validate_values
validate_integers bits [] = some DataError.value_missing
validate_integers bits ops = validate_values bits ops

-- `none` where the code returns true.
unfoldable pub validate_data_directive : DirectiveKind → List Operand → Option DataError
unfolding validate_strings validate_space validate_alignment validate_integers
validate_data_directive nul_string ops = validate_strings ops
validate_data_directive zero_space ops = validate_space ops
validate_data_directive alignment ops = validate_alignment ops
validate_data_directive kind ops = validate_integers (value_bits kind) ops
