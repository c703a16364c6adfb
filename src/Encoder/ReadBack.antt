-- ===== src/Encoder/ReadBack.antt =====
-- Encoding and reading back, for every instruction of the MOV, ALU, TEST and LEA families over
-- general registers and addresses.
use mathlib.Core.List.{map}
use nazm.Prelude.{ℕ, ◌≡◌, refl, false, List, [], ◌∷◌, some, ℤ, pos, IsI32, arith}
use nazm.Encoder.Registers.{RegId}
use nazm.Encoder.Operands.{Operand, reg, mem_reg, mem_disp}
use nazm.Encoder.Opcodes.{Opcode, mov, lea, add, sub, and, or, xor, cmp, test}
use nazm.Encoder.Emit.{operand_disp}
use nazm.Encoder.Mov.{enc_mov, enc_lea}
use nazm.Encoder.Arith.{enc_alu, enc_test}
use nazm.Encoder.Sse2.{sse2_operands_use_xmm}
use nazm.Encoder.Table.{encoder_encode}
use nazm.Encoder.Decode.Instruction.{decode_instruction}
use nazm.Encoder.Decode.Rows.{IsAlu, add_rows, or_rows, and_rows, sub_rows, xor_rows, cmp_rows}
use nazm.Encoder.Decode.Encoders.{
  ReadsAs, mov_reg-ReadsAs, mov_load-ReadsAs, mov_store-ReadsAs, test_reg-ReadsAs, alu_reg-ReadsAs,
  alu_mem-ReadsAs, lea_mem-ReadsAs,
}

pub data AluOp : Opcode → Type 0 where
  is_add : AluOp add
  is_or : AluOp or
  is_and : AluOp and
  is_sub : AluOp sub
  is_xor : AluOp xor
  is_cmp : AluOp cmp

-- An operation with the operand shapes that ModRM holds; a displacement is an `int32_t`.
pub data IsReadable : Opcode → List Operand → Type 0 where
  mov_registers : (d s : RegId) → IsReadable mov (reg d ∷ reg s ∷ [])
  mov_load_base : (d b : RegId) → IsReadable mov (reg d ∷ mem_reg b ∷ [])
  mov_load_disp : (d b : RegId) (v : ℤ) → IsI32 v → IsReadable mov (reg d ∷ mem_disp b v ∷ [])
  mov_store_base : (b s : RegId) → IsReadable mov (mem_reg b ∷ reg s ∷ [])
  mov_store_disp : (b s : RegId) (v : ℤ) → IsI32 v → IsReadable mov (mem_disp b v ∷ reg s ∷ [])
  alu_registers : {op : Opcode} (d s : RegId) → AluOp op → IsReadable op (reg d ∷ reg s ∷ [])
  alu_base : {op : Opcode} (d b : RegId) → AluOp op → IsReadable op (reg d ∷ mem_reg b ∷ [])
  alu_disp :
      {op : Opcode} (d b : RegId) (v : ℤ)
      → AluOp op
      → IsI32 v
      → IsReadable op (reg d ∷ mem_disp b v ∷ [])
  test_registers : (d s : RegId) → IsReadable test (reg d ∷ reg s ∷ [])
  lea_base : (d b : RegId) → IsReadable lea (reg d ∷ mem_reg b ∷ [])
  lea_disp : (d b : RegId) (v : ℤ) → IsI32 v → IsReadable lea (reg d ∷ mem_disp b v ∷ [])

-- [reg] is [reg + 0].
abbrev pub explicit : Operand → Operand
explicit (mem_reg b) = mem_disp b (pos 0)
explicit o = o

zero_fits : IsI32 (pos 0)
zero_fits = omega arith

-- The opcode and the digit that `encoder_encode` gives to an operation of the ALU group.
record Row (op : Opcode) : Type 0 where
  op_rr : ℕ
  ri_ext : ℕ
  rows : IsAlu op_rr op
  dispatch :
      (ops : List Operand) (target : ℤ) → encoder_encode op ops target ≡ enc_alu ops op_rr ri_ext

AluOp-Row : {op : Opcode} → AluOp op → Row op
unfolding encoder_encode
AluOp-Row is_add = record {
  op_rr = 0x01;
  ri_ext = 0;
  rows = add_rows;
  dispatch = λ ops target. refl;
}
AluOp-Row is_or = record { op_rr = 0x09; ri_ext = 1; rows = or_rows; dispatch = λ ops target. refl }
AluOp-Row is_and = record {
  op_rr = 0x21;
  ri_ext = 4;
  rows = and_rows;
  dispatch = λ ops target. refl;
}
AluOp-Row is_sub = record {
  op_rr = 0x29;
  ri_ext = 5;
  rows = sub_rows;
  dispatch = λ ops target. refl;
}
AluOp-Row is_xor = record {
  op_rr = 0x31;
  ri_ext = 6;
  rows = xor_rows;
  dispatch = λ ops target. refl;
}
AluOp-Row is_cmp = record {
  op_rr = 0x39;
  ri_ext = 7;
  rows = cmp_rows;
  dispatch = λ ops target. refl;
}

module _ {op : Opcode} (k : AluOp op) (target : ℤ) where
  alu_registers-ReadsAs :
      (d s : RegId)
      → (encoder_encode op (reg d ∷ reg s ∷ []) target).error ≡ false
      → ReadsAs (encoder_encode op (reg d ∷ reg s ∷ []) target) op (reg d ∷ reg s ∷ [])
  unfolding enc_alu
  alu_registers-ReadsAs d s =
      rw (AluOp-Row k).dispatch (alu_reg-ReadsAs _ op (AluOp-Row k).rows d s)

  alu_base-ReadsAs :
      (d b : RegId)
      → (encoder_encode op (reg d ∷ mem_reg b ∷ []) target).error ≡ false
      → ReadsAs
          (encoder_encode op (reg d ∷ mem_reg b ∷ []) target)
          op
          (reg d ∷ mem_disp b (pos 0) ∷ [])
  unfolding enc_alu
  alu_base-ReadsAs d b =
      rw (AluOp-Row k).dispatch (alu_mem-ReadsAs _ op (AluOp-Row k).rows d b (pos 0) zero_fits)

  alu_disp-ReadsAs :
      (d b : RegId) (v : ℤ)
      → IsI32 v
      → (encoder_encode op (reg d ∷ mem_disp b v ∷ []) target).error ≡ false
      → ReadsAs
          (encoder_encode op (reg d ∷ mem_disp b v ∷ []) target)
          op
          (reg d ∷ mem_disp b v ∷ [])
  unfolding enc_alu
  alu_disp-ReadsAs d b v fits =
      rw (AluOp-Row k).dispatch (alu_mem-ReadsAs _ op (AluOp-Row k).rows d b v fits)

-- MOV over general registers goes to `enc_mov`.
mov_dispatch :
    (ops : List Operand) (target : ℤ)
    → sse2_operands_use_xmm ops ≡ false
    → encoder_encode mov ops target ≡ enc_mov ops
unfolding encoder_encode
mov_dispatch ops target h = rw h

-- MOV between registers and between a register and memory, ADD, OR, AND, SUB, XOR and CMP of two
-- registers or of a register and memory, TEST of two registers, and LEA of memory, where memory is
-- [base] or [base + disp] with an int32_t and no operand is an XMM register: when the encoder gives
-- no error, the bytes read back as the same operation on the same operands, [base] as [base + 0],
-- with no byte left.
pub decode-encoder_encode :
    (op : Opcode) (ops : List Operand) (target : ℤ)
    → IsReadable op ops
    → sse2_operands_use_xmm ops ≡ false
    → (encoder_encode op ops target).error ≡ false
    → decode_instruction (encoder_encode op ops target).bytes ≡ some (op, map explicit ops, [])
unfolding enc_mov enc_lea enc_test operand_disp
decode-encoder_encode _ _ target (mov_registers d s) x =
    rw (mov_dispatch _ target x) (mov_reg-ReadsAs d s)
decode-encoder_encode _ _ target (mov_load_base d b) x =
    rw (mov_dispatch _ target x) (mov_load-ReadsAs d b (pos 0) zero_fits)
decode-encoder_encode _ _ target (mov_load_disp d b v f) x =
    rw (mov_dispatch _ target x) (mov_load-ReadsAs d b v f)
decode-encoder_encode _ _ target (mov_store_base b s) x =
    rw (mov_dispatch _ target x) (mov_store-ReadsAs s b (pos 0) zero_fits)
decode-encoder_encode _ _ target (mov_store_disp b s v f) x =
    rw (mov_dispatch _ target x) (mov_store-ReadsAs s b v f)
decode-encoder_encode _ _ target (alu_registers d s k) x = alu_registers-ReadsAs k target d s
decode-encoder_encode _ _ target (alu_base d b k) x = alu_base-ReadsAs k target d b
decode-encoder_encode _ _ target (alu_disp d b v k f) x = alu_disp-ReadsAs k target d b v f
decode-encoder_encode _ _ target (test_registers d s) x =
    unfold encoder_encode in test_reg-ReadsAs d s
decode-encoder_encode _ _ target (lea_base d b) x =
    unfold encoder_encode in lea_mem-ReadsAs d b (pos 0) zero_fits
decode-encoder_encode _ _ target (lea_disp d b v f) x =
    unfold encoder_encode in lea_mem-ReadsAs d b v f
