-- ===== src/Encoder/Mov.antt =====
-- The data movement encoders of encoder/table.c: MOV, MOVZX, MOVSX, PUSH, POP, LEA.
use nazm.Prelude.{
  ℕ, ◌+◌, ◌%◌, Bool, true, false, ◌&&◌, ◌||◌, not, List, [], ◌∷◌, ◌==◌, if◌then◌else◌, ℤ, pos,
  to_u8, to_i32, shr_ℤ,
}
use nazm.Encoder.Registers.{RegId, reg_invalid, reg_width_bits}
use nazm.Encoder.Bytes.{rex_byte, modrm_byte, immediate_fits_i32}
use nazm.Encoder.Operands.{Operand, reg, imm, mem_reg, mem_disp, mem_rip_label, label}
use nazm.Encoder.Emit.{
  ◌>>◌, skip, emit, EncodedInstruction, make_error, encoded, rex_b, rf, emit_rex_for_width,
  emit_rex_for_extension, emit_width_prefix, valid_integer_width, same_register_width, emit32,
  emit64, operand_disp, emit_rr, emit_mem, emit_rip_relative_mem, size_of, exceeds_32, exceeds_16,
  exceeds_8,
}

-- `(uint8_t)(code + rf(r))`
abbrev opcode_plus : ℕ → RegId → ℕ
opcode_plus code r = (code + rf r) % 256

unfoldable pub mov_imm : RegId → ℤ → EncodedInstruction
mov_imm dst v =
    let width = reg_width_bits dst in
    if not (valid_integer_width width)
    then make_error
    else if width == 8
    then (if exceeds_8 v
        then make_error
        else encoded do
          emit_rex_for_width width reg_invalid dst
          emit (opcode_plus 0xB0 dst)
          emit (to_u8 v))
    else if width == 16
    then (if exceeds_16 v
        then make_error
        else encoded do
          emit_width_prefix width
          emit_rex_for_width width reg_invalid dst
          emit (opcode_plus 0xB8 dst)
          emit (to_u8 v)
          emit (to_u8 (shr_ℤ v 8)))
    else if width == 32
    then (if exceeds_32 v
        then make_error
        else encoded do
          emit_rex_for_width width reg_invalid dst
          emit (opcode_plus 0xB8 dst)
          emit32 (to_i32 v))
    else if immediate_fits_i32 v
    then encoded (do
      emit_rex_for_width width reg_invalid dst
      emit 0xC7
      emit (modrm_byte 3 0 (rf dst))
      emit32 (to_i32 v))
    else encoded do emit_rex_for_width width reg_invalid dst; emit (opcode_plus 0xB8 dst); emit64 v

unfoldable pub mov_label : RegId → EncodedInstruction
mov_label dst =
    if not (reg_width_bits dst == 64)
    then make_error
    else encoded
        do emit_rex_for_width 64 reg_invalid dst; emit (opcode_plus 0xB8 dst); emit64 (pos 0)

unfoldable pub mov_reg : RegId → RegId → EncodedInstruction
mov_reg dst src =
    let width = reg_width_bits dst in
    if not (same_register_width dst src)
    then make_error
    else encoded (emit_rr (if width == 8 then 0x88 else 0x89) dst src width)

-- A load into, or a store from, the register `r`; the opcodes are those of width 8 and of the others.
unfoldable pub mov_mem : ℕ → ℕ → RegId → RegId → ℤ → EncodedInstruction
mov_mem opcode8 opcode r base disp =
    let width = reg_width_bits r in
    if not (valid_integer_width width) || not (reg_width_bits base == 64)
    then make_error
    else encoded (emit_mem (if width == 8 then opcode8 else opcode) r base disp width)

unfoldable pub mov_rip : ℕ → ℕ → RegId → EncodedInstruction
mov_rip opcode8 opcode r =
    let width = reg_width_bits r in
    if not (valid_integer_width width)
    then make_error
    else encoded (emit_rip_relative_mem (if width == 8 then opcode8 else opcode) r width)

unfoldable pub enc_mov : List Operand → EncodedInstruction
enc_mov (reg dst ∷ imm v ∷ []) = mov_imm dst v
enc_mov (reg dst ∷ label _ ∷ []) = mov_label dst
enc_mov (reg dst ∷ reg src ∷ []) = mov_reg dst src
enc_mov (reg dst ∷ mem_reg base ∷ []) = mov_mem 0x8A 0x8B dst base (operand_disp (mem_reg base))
enc_mov (reg dst ∷ mem_disp base disp ∷ []) =
    mov_mem 0x8A 0x8B dst base (operand_disp (mem_disp base disp))
enc_mov (reg dst ∷ mem_rip_label _ ∷ []) = mov_rip 0x8A 0x8B dst
enc_mov (mem_reg base ∷ reg src ∷ []) = mov_mem 0x88 0x89 src base (operand_disp (mem_reg base))
enc_mov (mem_disp base disp ∷ reg src ∷ []) =
    mov_mem 0x88 0x89 src base (operand_disp (mem_disp base disp))
enc_mov (mem_rip_label _ ∷ reg src ∷ []) = mov_rip 0x88 0x89 src
enc_mov _ = make_error

unfoldable pub size_mov : List Operand → ℕ
size_mov ops = size_of (enc_mov ops)

movx_supported : ℕ → ℕ → Bool → Bool
movx_supported destination_width source_width sign_extend =
    source_width == 8
      && (destination_width == 16 || destination_width == 32 || destination_width == 64)
    || source_width == 16 && (destination_width == 32 || destination_width == 64)
    || sign_extend && source_width == 32 && destination_width == 64

unfoldable pub enc_movx : List Operand → Bool → EncodedInstruction
unfolding movx_supported
enc_movx (reg dst ∷ reg src ∷ []) sign_extend =
    let destination_width = reg_width_bits dst in
    let source_width = reg_width_bits src in
    if not (movx_supported destination_width source_width sign_extend)
    then make_error
    else encoded do
      emit_width_prefix destination_width
      emit_rex_for_extension destination_width dst src
      (if sign_extend && source_width == 32
          then emit 0x63
          else emit 0x0F
            >> (if source_width == 8
                then emit (if sign_extend then 0xBE else 0xB6)
                else emit (if sign_extend then 0xBF else 0xB7)))
      emit (modrm_byte 3 (rf dst) (rf src))
enc_movx _ _ = make_error

unfoldable pub enc_push : List Operand → EncodedInstruction
enc_push (reg r ∷ []) =
    if not (reg_width_bits r == 64)
    then make_error
    else encoded do
      (if rex_b r then emit (rex_byte false false false true) else skip)
      emit (opcode_plus 0x50 r)
enc_push _ = make_error

unfoldable pub enc_pop : List Operand → EncodedInstruction
enc_pop (reg r ∷ []) =
    if not (reg_width_bits r == 64)
    then make_error
    else encoded do
      (if rex_b r then emit (rex_byte false false false true) else skip)
      emit (opcode_plus 0x58 r)
enc_pop _ = make_error

unfoldable pub lea_mem : RegId → RegId → ℤ → EncodedInstruction
lea_mem dst base disp =
    if not (reg_width_bits dst == 64) || not (reg_width_bits base == 64)
    then make_error
    else encoded (emit_mem 0x8D dst base disp 64)

unfoldable pub enc_lea : List Operand → EncodedInstruction
unfolding lea_mem
enc_lea (reg dst ∷ mem_rip_label _ ∷ []) =
    if not (reg_width_bits dst == 64)
    then make_error
    else encoded (emit_rip_relative_mem 0x8D dst 64)
enc_lea (reg dst ∷ mem_reg base ∷ []) = lea_mem dst base (operand_disp (mem_reg base))
enc_lea (reg dst ∷ mem_disp base disp ∷ []) = lea_mem dst base (operand_disp (mem_disp base disp))
enc_lea _ = make_error
