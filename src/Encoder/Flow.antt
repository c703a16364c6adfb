-- ===== src/Encoder/Flow.antt =====
-- The encoders of encoder/table.c for SETcc, jumps, calls and the instructions with no operand.
use nazm.Prelude.{ℕ, false, not, List, [], ◌∷◌, ◌==◌, if◌then◌else◌, ℤ, to_u8, to_i32}
use nazm.Encoder.Registers.{RegId, reg_invalid, reg_width_bits}
use nazm.Encoder.Bytes.{modrm_byte, immediate_fits_i32, immediate_fits_u8}
use nazm.Encoder.Operands.{Operand, reg, imm, mem_reg, mem_disp, label}
use nazm.Encoder.Emit.{
  ◌>>◌, emit, EncodedInstruction, make_error, encoded, emit_rex, rex_b, rf, emit_rex_for_width,
  emit32, operand_disp, emit_mem_address,
}

unfoldable pub setcc_mem : RegId → ℤ → ℕ → EncodedInstruction
setcc_mem base disp opcode2 =
    if not (reg_width_bits base == 64)
    then make_error
    else encoded do
      emit_rex_for_width 8 reg_invalid base
      emit 0x0F
      emit opcode2
      emit_mem_address 0 base disp

unfoldable pub enc_setcc : List Operand → ℕ → EncodedInstruction
enc_setcc (reg r ∷ []) opcode2 =
    if not (reg_width_bits r == 8)
    then make_error
    else encoded
        do emit_rex_for_width 8 reg_invalid r; emit 0x0F; emit opcode2; emit (modrm_byte 3 0 (rf r))
enc_setcc (mem_reg base ∷ []) opcode2 = setcc_mem base (operand_disp (mem_reg base)) opcode2
enc_setcc (mem_disp base disp ∷ []) opcode2 =
    setcc_mem base (operand_disp (mem_disp base disp)) opcode2
enc_setcc _ _ = make_error

unfoldable pub enc_jmp : List Operand → ℤ → EncodedInstruction
enc_jmp (reg r ∷ []) resolved_disp =
    if not (reg_width_bits r == 64)
    then make_error
    else encoded do emit_rex false false false (rex_b r); emit 0xFF; emit (modrm_byte 3 4 (rf r))
enc_jmp (label _ ∷ []) resolved_disp =
    if not (immediate_fits_i32 resolved_disp)
    then make_error
    else encoded (emit 0xE9 >> emit32 (to_i32 resolved_disp))
enc_jmp _ _ = make_error

unfoldable pub enc_call : List Operand → ℤ → EncodedInstruction
enc_call (reg r ∷ []) resolved_disp =
    if not (reg_width_bits r == 64)
    then make_error
    else encoded do emit_rex false false false (rex_b r); emit 0xFF; emit (modrm_byte 3 2 (rf r))
enc_call (label _ ∷ []) resolved_disp =
    if not (immediate_fits_i32 resolved_disp)
    then make_error
    else encoded (emit 0xE8 >> emit32 (to_i32 resolved_disp))
enc_call _ _ = make_error

unfoldable pub enc_jcc : List Operand → ℤ → ℕ → EncodedInstruction
enc_jcc (label _ ∷ []) disp opcode2 =
    if not (immediate_fits_i32 disp)
    then make_error
    else encoded (emit 0x0F >> emit opcode2 >> emit32 (to_i32 disp))
enc_jcc _ _ _ = make_error

unfoldable pub enc_ret : EncodedInstruction
enc_ret = encoded (emit 0xC3)

unfoldable pub enc_nop : EncodedInstruction
enc_nop = encoded (emit 0x90)

unfoldable pub enc_rdtsc : EncodedInstruction
enc_rdtsc = encoded (emit 0x0F >> emit 0x31)

unfoldable pub enc_hlt : EncodedInstruction
enc_hlt = encoded (emit 0xF4)

unfoldable pub enc_syscall : EncodedInstruction
enc_syscall = encoded (emit 0x0F >> emit 0x05)

unfoldable pub enc_int : List Operand → EncodedInstruction
enc_int (imm v ∷ []) =
    if not (immediate_fits_u8 v) then make_error else encoded (emit 0xCD >> emit (to_u8 v))
enc_int _ = make_error
