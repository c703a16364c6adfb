-- ===== src/Encoder/Examples.antt =====
-- The encoder's theorems at concrete instructions, and runs whose bytes the architecture manual
-- gives.
use nazm.Prelude.{
  ◌⊎◌, false, ℕ, ◌+◌, ◌≤◌, ◌≡◌, ◌↔◌, ◌≢◌, IsI32, if◌then◌else◌, refl, true, List, [], ◌∷◌, ◌++◌,
  some, length, pos, negsuc, of_bits, arith,
}
use nazm.Encoder.Registers.{
  reg_al, reg_cl, reg_xmm15, reg_is_gpr, reg_index, reg_width_bits, reg_field, reg_needs_rex,
  reg_requires_rex_byte, reg_is_xmm,
}
use nazm.Encoder.Registers.Numbers.{reg_index-field, reg_index_injective, reg_classes}
use nazm.Encoder.Bytes.{
  rex_byte, rex_required, modrm_byte, sib_byte, emit_imm32, emit_imm64, immediate_fits_i32,
  immediate_fits_u8, immediate_fits_i8,
}
use nazm.Encoder.Bytes.Immediates.{from_bytes, emit_imm32_value, emit_imm64_value}
use nazm.Encoder.Operands.{Operand, reg, imm, mem_disp}
use nazm.Encoder.Opcodes.{Opcode, mov, add, shr}
use nazm.Encoder.Emit.{
  ◌>>◌, skip, emit, encoded, extension_bit, rex_forced, emit_rex_for_width, emit_width_prefix,
  valid_integer_width, same_register_width, emit32, emit64, emit_mem_address, emit_rr, emit_mem, rf,
}
use nazm.Encoder.Mov.{mov_imm, mov_mem, enc_mov, enc_push}
use nazm.Encoder.Arith.{alu_imm, test_imm, alu_mem, enc_alu, shift_imm, enc_shift}
use nazm.Encoder.Sse2.{sse2_operands_use_xmm}
use nazm.Encoder.Table.{encoder_encode, encoder_instruction_size}
use nazm.Encoder.Sizes.Table.{length-encoder_encode}
use nazm.Encoder.Accepts.{FitsWidth, mov_imm_accepts, immediates_accept}
use nazm.Encoder.Agreement.{instruction_size-encode}
use nazm.Encoder.Decode.{extend, indirect, read_modrm}
use nazm.Encoder.Decode.Address.{read-emit_mem_address}
use nazm.Encoder.Decode.Instruction.{decode_instruction}
use nazm.Encoder.ReadBack.{alu_disp, is_add, decode-encoder_encode}

-- r9, [r12 - 4]
abbrev sample : List Operand
sample = reg 9 ∷ mem_disp 12 (negsuc 3) ∷ []

bytes : Opcode → List Operand → List ℕ
unfolding encoder_encode enc_mov mov_imm mov_mem enc_push enc_alu alu_mem enc_shift shift_imm
    encoded ◌>>◌ skip emit emit_width_prefix emit_rex_for_width extension_bit rex_forced
    valid_integer_width same_register_width emit32 emit64 emit_mem_address emit_rr emit_mem rex_byte
    rex_required modrm_byte sib_byte reg_width_bits reg_field reg_needs_rex reg_requires_rex_byte
    sse2_operands_use_xmm reg_is_xmm immediate_fits_i32 immediate_fits_u8 immediate_fits_i8
bytes op ops = (encoder_encode op ops (pos 0)).bytes

-- add r9, [r12 - 4] needs REX.W, REX.R, REX.B and SIB.
add_memory : bytes add sample ≡ 0x4D ∷ 0x03 ∷ 0x4C ∷ 0x24 ∷ 0xFC ∷ []
unfolding bytes
add_memory = refl

-- mov spl, 5 needs REX to name the low byte of the stack pointer.
mov_spl : bytes mov (reg 52 ∷ imm (pos 5) ∷ []) ≡ 0x40 ∷ 0xB4 ∷ 0x05 ∷ []
unfolding bytes
mov_spl = refl

-- The longest encoding: mov r10, 0x1122334455667788.
mov_wide :
    bytes mov (reg 10 ∷ imm (pos 0x1122334455667788) ∷ [])
    ≡ 0x49 ∷ 0xBA ∷ 0x88 ∷ 0x77 ∷ 0x66 ∷ 0x55 ∷ 0x44 ∷ 0x33 ∷ 0x22 ∷ 0x11 ∷ []
unfolding bytes
mov_wide = refl

decode-encoder_encode_example :
    decode_instruction (encoder_encode add sample (pos 0)).bytes ≡ some (add, sample, [])
unfolding bytes
decode-encoder_encode_example =
    decode-encoder_encode add sample (pos 0) (alu_disp 9 12 (negsuc 3) is_add (omega arith)) refl
      refl

length-encoder_encode_example :
    (1 ≤ (encoder_encode add sample (pos 0)).len)
    × ((encoder_encode add sample (pos 0)).len ≤ 10)
    × (length (encoder_encode add sample (pos 0)).bytes ≡ (encoder_encode add sample (pos 0)).len)
unfolding bytes
length-encoder_encode_example = length-encoder_encode add sample (pos 0) refl

instruction_size-encode_example :
    encoder_instruction_size shr (reg 16 ∷ imm (pos 3) ∷ [])
    ≡ (encoder_encode shr (reg 16 ∷ imm (pos 3) ∷ []) (pos 0)).len
unfolding bytes
instruction_size-encode_example =
    instruction_size-encode shr (reg 16 ∷ imm (pos 3) ∷ []) (pos 0) refl

read-emit_mem_address_example :
    (bytes : List ℕ) × (emit_mem_address 1 12 (pos 300) (0x4D ∷ 0x8B ∷ [])
      ≡ (0x4D ∷ 0x8B ∷ []) ++ bytes)
    × (read_modrm true true (bytes ++ [])
        ≡ some (extend true 1, indirect (extend true (rf 12)) (pos 300), []))
read-emit_mem_address_example =
    read-emit_mem_address true true 1 12 (pos 300) (0x4D ∷ 0x8B ∷ []) [] (omega arith) (omega arith)
      (omega arith)

reg_index_injective_example : reg_cl ≡ reg_cl
unfolding reg_width_bits
reg_index_injective_example = reg_index_injective reg_cl reg_cl (ground arith) refl refl

emit_imm64_value_example : of_bits 64 (from_bytes (emit_imm64 (negsuc 1))) ≡ negsuc 1
emit_imm64_value_example = emit_imm64_value (negsuc 1) (omega arith)

emit_imm32_value_example : of_bits 32 (from_bytes (emit_imm32 (negsuc 1))) ≡ negsuc 1
emit_imm32_value_example = emit_imm32_value (negsuc 1) (omega arith)

reg_index-field_example :
    reg_index reg_xmm15 ≡ pos (reg_field reg_xmm15 + (if reg_needs_rex reg_xmm15 then 8 else 0))
unfolding reg_width_bits
reg_index-field_example = reg_index-field reg_xmm15 (ground arith)

reg_classes_example :
    ((reg_is_gpr reg_xmm15 ≡ true)
      ↔ ((reg_width_bits reg_xmm15 ≢ 0) × (reg_width_bits reg_xmm15 ≢ 128)))
    × ((reg_is_xmm reg_xmm15 ≡ true) ↔ (reg_width_bits reg_xmm15 ≡ 128))
reg_classes_example = reg_classes reg_xmm15

mov_imm_accepts_example :
    ((mov_imm reg_al (pos 200)).error ≡ false)
    ↔ ((reg_width_bits reg_al ≡ 64) ⊎ FitsWidth (reg_width_bits reg_al) (pos 200))
mov_imm_accepts_example = mov_imm_accepts reg_al (pos 200) (omega arith)

immediates_accept_example :
    (((alu_imm reg_al (pos 200) 5).error ≡ false) ↔ (
      (reg_width_bits reg_al ≡ 64) × IsI32 (pos 200) ⊎ FitsWidth (reg_width_bits reg_al) (pos 200)))
    × (((test_imm reg_al (pos 200)).error ≡ false) ↔ (
        (reg_width_bits reg_al ≡ 64) × IsI32 (pos 200)
        ⊎ FitsWidth (reg_width_bits reg_al) (pos 200)))
immediates_accept_example = immediates_accept reg_al (pos 200) 5 (omega arith)
