-- ===== src/Encoder/Decode/Encoders.antt =====
-- The encoders of MOV, the ALU group, TEST and LEA against the reader of instructions.
use mathlib.Core.Bool
use nazm.Prelude.{
  ℕ, ◌+◌, ◌%◌, ◌≡◌, refl, Bool, true, false, ◌==◌, List, [], ◌∷◌, some, if◌then◌else◌, ℤ, IsI32,
  arith,
}
use nazm.Encoder.Registers.{RegId, reg_width_bits}
use nazm.Encoder.Operands.{Operand, reg, mem_disp}
use nazm.Encoder.Opcodes.{Opcode, mov, lea, test}
use nazm.Encoder.Emit.{
  EncodedInstruction, make_error, encoded, emit_rr, emit_mem, valid_integer_width,
  same_register_width,
}
use nazm.Encoder.Mov.{mov_reg, mov_mem, lea_mem}
use nazm.Encoder.Arith.{alu_reg, alu_mem, test_reg}
use nazm.Encoder.Decode.Instruction.{meaning, in_order, decode_instruction}
use nazm.Encoder.Emit.Helpers.{emit_mem-Adds}
use nazm.Encoder.Decode.Operands.{Suits, read_operands-mem}
use nazm.Encoder.Decode.Rows.{mov_store, mov_load, test_pair, IsAlu}
use nazm.Encoder.Decode.RoundTrip.{
  checked-passed, encoded_bytes, decode-operands, IsPair, decode-rr, decode-mem,
}

same_width :
    (dst src : RegId)
    → Bool.not (same_register_width dst src) ≡ false
    → (valid_integer_width (reg_width_bits dst) ≡ true) × (reg_width_bits src ≡ reg_width_bits dst)
unfolding same_register_width
same_width dst src h = ground arith

memory_guard :
    (width base_width : ℕ)
    → (Bool.◌||◌ (Bool.not (valid_integer_width width)) (Bool.not (base_width == 64))) ≡ false
    → (valid_integer_width width ≡ true) × (base_width ≡ 64)
memory_guard width base_width h = ground arith

-- What reading `e` back gives.
abbrev pub ReadsAs : EncodedInstruction → Opcode → List Operand → Type 0
ReadsAs e op ops = decode_instruction e.bytes ≡ some (op, ops, [])

-- A register form and a memory form behind their checks.
abbrev guarded_rr : ℕ → ℕ → RegId → RegId → EncodedInstruction
guarded_rr opcode8 opcode dst src =
    let width = reg_width_bits dst in
    if Bool.not (same_register_width dst src)
    then make_error
    else encoded (emit_rr (if width == 8 then opcode8 else opcode) dst src width)

abbrev guarded_mem : ℕ → ℕ → RegId → RegId → ℤ → EncodedInstruction
guarded_mem opcode8 opcode r base disp =
    let width = reg_width_bits r in
    if Bool.◌||◌ (Bool.not (valid_integer_width width)) (Bool.not (reg_width_bits base == 64))
    then make_error
    else encoded (emit_mem (if width == 8 then opcode8 else opcode) r base disp width)

module _ (opcode8 opcode : ℕ) (op : Opcode) (first : Bool)
    (pair : IsPair opcode8 opcode op first) where
  rr-ReadsAs :
      (dst src : RegId)
      → (guarded_rr opcode8 opcode dst src).error ≡ false
      → ReadsAs (guarded_rr opcode8 opcode dst src) op (in_order first src (reg dst))
  rr-ReadsAs dst src h =
      let (passed, bytes) = checked-passed _ _ h in
      let (valid, same) = same_width dst src passed in
      rw bytes (decode-rr opcode8 opcode op first pair (reg_width_bits dst) valid dst src refl same)

  mem-ReadsAs :
      (r base : RegId) (disp : ℤ)
      → IsI32 disp
      → (guarded_mem opcode8 opcode r base disp).error ≡ false
      → ReadsAs (guarded_mem opcode8 opcode r base disp) op (in_order first r (mem_disp base disp))
  mem-ReadsAs r base disp fits h =
      let (passed, bytes) = checked-passed _ _ h in
      let (valid, base_64) = memory_guard (reg_width_bits r) (reg_width_bits base) passed in
      rw bytes (
        decode-mem opcode8 opcode op first pair (reg_width_bits r) valid r base disp refl base_64
          fits)

pub mov_reg-ReadsAs :
    (dst src : RegId)
    → (mov_reg dst src).error ≡ false
    → ReadsAs (mov_reg dst src) mov (reg dst ∷ reg src ∷ [])
unfolding mov_reg
mov_reg-ReadsAs dst src h = rr-ReadsAs 0x88 0x89 mov false mov_store dst src h

pub mov_load-ReadsAs :
    (dst base : RegId) (disp : ℤ)
    → IsI32 disp
    → (mov_mem 0x8A 0x8B dst base disp).error ≡ false
    → ReadsAs (mov_mem 0x8A 0x8B dst base disp) mov (reg dst ∷ mem_disp base disp ∷ [])
unfolding mov_mem
mov_load-ReadsAs dst base disp fits h = mem-ReadsAs 0x8A 0x8B mov true mov_load dst base disp fits h

pub mov_store-ReadsAs :
    (src base : RegId) (disp : ℤ)
    → IsI32 disp
    → (mov_mem 0x88 0x89 src base disp).error ≡ false
    → ReadsAs (mov_mem 0x88 0x89 src base disp) mov (mem_disp base disp ∷ reg src ∷ [])
unfolding mov_mem
mov_store-ReadsAs src base disp fits h =
    mem-ReadsAs 0x88 0x89 mov false mov_store src base disp fits h

pub test_reg-ReadsAs :
    (left right : RegId)
    → (test_reg left right).error ≡ false
    → ReadsAs (test_reg left right) test (reg left ∷ reg right ∷ [])
unfolding test_reg
test_reg-ReadsAs left right h = rr-ReadsAs 0x84 0x85 test false test_pair left right h

-- `(uint8_t)(opcode + 2)` on either side of the choice by width.
if_add :
    (c : Bool) (a b : ℕ)
    → ((if c then a else b) + 2) % 256 ≡ (if c then (a + 2) % 256 else (b + 2) % 256)
if_add true a b = refl
if_add false a b = refl

module _ (op_rr : ℕ) (op : Opcode) (rows : IsAlu op_rr op) where
  pub alu_reg-ReadsAs :
      (dst src : RegId)
      → (alu_reg dst src op_rr).error ≡ false
      → ReadsAs (alu_reg dst src op_rr) op (reg dst ∷ reg src ∷ [])
  unfolding alu_reg
  alu_reg-ReadsAs dst src h = rr-ReadsAs _ op_rr op false rows.store dst src h

  pub alu_mem-ReadsAs :
      (dst base : RegId) (disp : ℤ)
      → IsI32 disp
      → (alu_mem dst base disp op_rr).error ≡ false
      → ReadsAs (alu_mem dst base disp op_rr) op (reg dst ∷ mem_disp base disp ∷ [])
  unfolding alu_mem
  alu_mem-ReadsAs dst base disp fits =
      rw (if_add (reg_width_bits dst == 8) ((op_rr + 255) % 256) op_rr)
        (mem-ReadsAs _ _ op true rows.load dst base disp fits)

lea-Suits : Suits 64 0x8D
unfolding valid_integer_width
lea-Suits = record { valid = refl; parity = refl; plain = refl }

pub lea_mem-ReadsAs :
    (dst base : RegId) (disp : ℤ)
    → IsI32 disp
    → (lea_mem dst base disp).error ≡ false
    → ReadsAs (lea_mem dst base disp) lea (reg dst ∷ mem_disp base disp ∷ [])
unfolding lea_mem meaning
lea_mem-ReadsAs dst base disp fits h =
    let (passed, bytes) = checked-passed _ _ h in
    let (dst_64, base_64) = lea_guard (reg_width_bits dst) (reg_width_bits base) passed in
    rw (bytes, encoded_bytes _ (emit_mem-Adds 0x8D dst base disp 64) refl)
      (decode-operands _ _ _ _ _ lea true
        (read_operands-mem 0x8D dst 64 dst_64 lea-Suits base disp base_64 fits) refl)
  where
    lea_guard :
        (a b : ℕ)
        → (Bool.◌||◌ (Bool.not (a == 64)) (Bool.not (b == 64))) ≡ false
        → (a ≡ 64) × (b ≡ 64)
    lea_guard a b g = ground arith
