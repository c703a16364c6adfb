-- ===== src/Encoder/Arith.antt =====
-- The arithmetic and logic encoders of encoder/table.c: the ALU group, INC/DEC/NEG/NOT, IMUL,
-- IDIV, DIV, CQO, the shifts, TEST.
use nazm.Prelude.{
  ℕ, ◌+◌, ◌%◌, ◌||◌, not, List, [], ◌∷◌, ◌==◌, if◌then◌else◌, ℤ, pos, eq_ℤ, to_u8, to_i32, shr_ℤ,
}
use nazm.Encoder.Registers.{RegId, reg_invalid, reg_cl, reg_rcx, reg_width_bits}
use nazm.Encoder.Bytes.{modrm_byte, immediate_fits_i8, immediate_fits_u8}
use nazm.Encoder.Operands.{Operand, reg, imm, mem_reg, mem_disp}
use nazm.Encoder.Emit.{
  Emit, ◌>>◌, emit, EncodedInstruction, make_error, encoded, rf, emit_rex_for_width,
  emit_width_prefix, valid_integer_width, same_register_width, emit32, operand_disp,
  emit_mem_address, emit_rr, emit_mem, size_of, imul_immediate_rejected, immediate_rejected,
}

-- `(uint8_t)(op_rr - 1)` at width 8.
abbrev pub alu_opcode : ℕ → ℕ → ℕ
alu_opcode op_rr width = if width == 8 then (op_rr + 255) % 256 else op_rr

unfoldable pub alu_reg : RegId → RegId → ℕ → EncodedInstruction
alu_reg dst src op_rr =
    let width = reg_width_bits dst in
    if not (same_register_width dst src)
    then make_error
    else encoded (emit_rr (alu_opcode op_rr width) dst src width)

unfoldable pub alu_imm : RegId → ℤ → ℕ → EncodedInstruction
alu_imm dst v ri_ext =
    let width = reg_width_bits dst in
    if not (valid_integer_width width) || immediate_rejected width v
    then make_error
    else encoded do
      emit_width_prefix width
      emit_rex_for_width width reg_invalid dst
      (if width == 8
          then emit 0x80 >> emit (modrm_byte 3 ri_ext (rf dst)) >> emit (to_u8 v)
          else if immediate_fits_i8 v
          then emit 0x83 >> emit (modrm_byte 3 ri_ext (rf dst)) >> emit (to_u8 v)
          else if width == 16
          then emit 0x81
            >> emit (modrm_byte 3 ri_ext (rf dst))
            >> emit (to_u8 v)
            >> emit (to_u8 (shr_ℤ v 8))
          else emit 0x81 >> emit (modrm_byte 3 ri_ext (rf dst)) >> emit32 (to_i32 v))

unfoldable pub alu_mem : RegId → RegId → ℤ → ℕ → EncodedInstruction
alu_mem dst base disp op_rr =
    let width = reg_width_bits dst in
    if not (valid_integer_width width) || not (reg_width_bits base == 64)
    then make_error
    else encoded (emit_mem ((alu_opcode op_rr width + 2) % 256) dst base disp width)

unfoldable pub enc_alu : List Operand → ℕ → ℕ → EncodedInstruction
enc_alu (reg dst ∷ reg src ∷ []) op_rr ri_ext = alu_reg dst src op_rr
enc_alu (reg dst ∷ imm v ∷ []) op_rr ri_ext = alu_imm dst v ri_ext
enc_alu (reg dst ∷ mem_reg base ∷ []) op_rr ri_ext = alu_mem dst base (pos 0) op_rr
enc_alu (reg dst ∷ mem_disp base disp ∷ []) op_rr ri_ext = alu_mem dst base disp op_rr
enc_alu _ _ _ = make_error

unfoldable pub size_alu : List Operand → ℕ → ℕ → ℕ
size_alu ops op_rr ri_ext = size_of (enc_alu ops op_rr ri_ext)

-- `b.len = 0`
abbrev pub reset : Emit
reset b = []

unfoldable pub enc_unary : List Operand → ℕ → EncodedInstruction
enc_unary (reg r ∷ []) ext =
    let width = reg_width_bits r in
    if not (valid_integer_width width)
    then make_error
    else encoded do
      emit_width_prefix width
      emit_rex_for_width width reg_invalid r
      emit (if width == 8 then 0xFE else 0xFF)
      (if ext == 0 || ext == 1
          then emit (modrm_byte 3 ext (rf r))
          else reset
            >> emit_width_prefix width
            >> emit_rex_for_width width reg_invalid r
            >> emit (if width == 8 then 0xF6 else 0xF7)
            >> emit (modrm_byte 3 ext (rf r)))
enc_unary _ _ = make_error

unfoldable pub imul_reg : RegId → RegId → EncodedInstruction
imul_reg dst src =
    let width = reg_width_bits dst in
    if width == 8 || not (valid_integer_width width) || not (same_register_width dst src)
    then make_error
    else encoded do
      emit_width_prefix width
      emit_rex_for_width width dst src
      emit 0x0F
      emit 0xAF
      emit (modrm_byte 3 (rf dst) (rf src))

unfoldable pub imul_mem : RegId → RegId → ℤ → EncodedInstruction
imul_mem dst base disp =
    let width = reg_width_bits dst in
    if width == 8 || not (valid_integer_width width) || not (reg_width_bits base == 64)
    then make_error
    else encoded do
      emit_width_prefix width
      emit_rex_for_width width dst base
      emit 0x0F
      emit 0xAF
      emit_mem_address (rf dst) base disp

unfoldable pub imul_imm : RegId → RegId → ℤ → EncodedInstruction
imul_imm dst src v =
    let width = reg_width_bits dst in
    if not (same_register_width dst src) || width == 8 || imul_immediate_rejected width v
    then make_error
    else encoded do
      emit_width_prefix width
      emit_rex_for_width width dst src
      (if immediate_fits_i8 v
          then emit 0x6B >> emit (modrm_byte 3 (rf dst) (rf src)) >> emit (to_u8 v)
          else emit 0x69
            >> emit (modrm_byte 3 (rf dst) (rf src))
            >> (if width == 16
                then emit (to_u8 v) >> emit (to_u8 (shr_ℤ v 8))
                else emit32 (to_i32 v)))

unfoldable pub enc_imul : List Operand → EncodedInstruction
enc_imul (reg dst ∷ reg src ∷ []) = imul_reg dst src
enc_imul (reg dst ∷ mem_reg base ∷ []) = imul_mem dst base (operand_disp (mem_reg base))
enc_imul (reg dst ∷ mem_disp base disp ∷ []) = imul_mem dst base (operand_disp (mem_disp base disp))
enc_imul (reg dst ∷ reg src ∷ imm v ∷ []) = imul_imm dst src v
enc_imul _ = make_error

unfoldable pub enc_divide : List Operand → ℕ → EncodedInstruction
enc_divide (reg r ∷ []) ext =
    let width = reg_width_bits r in
    if not (valid_integer_width width)
    then make_error
    else encoded do
      emit_width_prefix width
      emit_rex_for_width width reg_invalid r
      emit (if width == 8 then 0xF6 else 0xF7)
      emit (modrm_byte 3 ext (rf r))
enc_divide _ _ = make_error

unfoldable pub enc_idiv : List Operand → EncodedInstruction
enc_idiv ops = enc_divide ops 7

unfoldable pub enc_div : List Operand → EncodedInstruction
enc_div ops = enc_divide ops 6

unfoldable pub enc_cqo : List Operand → EncodedInstruction
enc_cqo [] = encoded (emit 0x48 >> emit 0x99)
enc_cqo (_ ∷ _) = make_error

unfoldable pub shift_imm : RegId → ℤ → ℕ → EncodedInstruction
shift_imm r v ext =
    let width = reg_width_bits r in
    if not (valid_integer_width width) || not (immediate_fits_u8 v)
    then make_error
    else encoded do
      emit_width_prefix width
      emit_rex_for_width width reg_invalid r
      (if eq_ℤ v (pos 1)
          then emit (if width == 8 then 0xD0 else 0xD1) >> emit (modrm_byte 3 ext (rf r))
          else emit (if width == 8 then 0xC0 else 0xC1)
            >> emit (modrm_byte 3 ext (rf r))
            >> emit (to_u8 v))

unfoldable pub shift_reg : RegId → RegId → ℕ → EncodedInstruction
shift_reg r amount ext =
    let width = reg_width_bits r in
    if not (valid_integer_width width) || not (amount == reg_cl || amount == reg_rcx)
    then make_error
    else encoded do
      emit_width_prefix width
      emit_rex_for_width width reg_invalid r
      emit (if width == 8 then 0xD2 else 0xD3)
      emit (modrm_byte 3 ext (rf r))

unfoldable pub enc_shift : List Operand → ℕ → EncodedInstruction
enc_shift (reg r ∷ imm v ∷ []) ext = shift_imm r v ext
enc_shift (reg r ∷ reg amount ∷ []) ext = shift_reg r amount ext
enc_shift _ _ = make_error

unfoldable pub size_shift : List Operand → ℕ
size_shift ops = size_of (enc_shift ops 4)

unfoldable pub test_imm : RegId → ℤ → EncodedInstruction
test_imm r v =
    let width = reg_width_bits r in
    if not (valid_integer_width width) || immediate_rejected width v
    then make_error
    else encoded do
      emit_width_prefix width
      emit_rex_for_width width reg_invalid r
      emit (if width == 8 then 0xF6 else 0xF7)
      emit (modrm_byte 3 0 (rf r))
      (if width == 8
          then emit (to_u8 v)
          else if width == 16
          then emit (to_u8 v) >> emit (to_u8 (shr_ℤ v 8))
          else emit32 (to_i32 v))

unfoldable pub test_reg : RegId → RegId → EncodedInstruction
test_reg left right =
    let width = reg_width_bits left in
    if not (same_register_width left right)
    then make_error
    else encoded (emit_rr (if width == 8 then 0x84 else 0x85) left right width)

unfoldable pub enc_test : List Operand → EncodedInstruction
enc_test (reg left ∷ reg right ∷ []) = test_reg left right
enc_test (reg r ∷ imm v ∷ []) = test_imm r v
enc_test _ = make_error
