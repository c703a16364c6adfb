-- ===== src/Encoder/Sizes/Estimate.antt =====
-- The size estimate of the first pass lies between one byte and `MAX_INSTRUCTION_BYTES`.
use mathlib.Core.Bool
use nazm.Prelude.{
  ℕ, ◌≤◌, Bool, true, false, List, [], ◌∷◌, pos, arith, Bool-cases, inl, inr, if◌then◌else◌,
}
use nazm.Encoder.Operands.{Operand, reg, imm}
use nazm.Encoder.Opcodes.{
  Opcode, mov, push, pop, lea, movzx, movsx, add, sub, and, or, xor, cmp, imul, idiv, div, cqo, inc,
  dec, neg, not, addsd, subsd, mulsd, divsd, ucomisd, xorpd, cvtsi2sd, cvttsd2si, test, sete, setne,
  setg, setl, setge, setle, seta, setb, setae, setbe, setp, setnp, shl, shr, sar, jmp, call, ret,
  je, jne, jg, jge, jl, jle, jz, jnz, js, jns, syscall, nop, rdtsc, hlt, int, count, invalid,
}
use nazm.Encoder.Emit.{EncodedInstruction, size_of}
use nazm.Encoder.Mov.{size_mov}
use nazm.Encoder.Arith.{size_alu, size_shift, enc_idiv, enc_div}
use nazm.Encoder.Bounds.{IsSized}
use nazm.Encoder.Sizes.Mov.{enc_mov-IsSized}
use nazm.Encoder.Sizes.Arith.{enc_shift-IsSized}
use nazm.Encoder.Sizes.Sse2.{sse2_encode_move-IsSized}
use nazm.Encoder.Sizes.Table.{encoder_encode-IsSized}
use nazm.Encoder.Sse2.{sse2_operands_use_xmm}
use nazm.Encoder.Table.{encoder_encode, stack_size, jump_size, int_size, encoder_instruction_size}

abbrev pub InBuffer : ℕ → Type 0
InBuffer n = (1 ≤ n) × (n ≤ 15)

size_of-InBuffer : (e : EncodedInstruction) → IsSized e → InBuffer (size_of e)
size_of-InBuffer e s = elim (Bool-cases e.error) [
  | inl failed ↦ rw failed (omega arith, omega arith)
  | inr ok ↦ let lo = s.at_least ok in let hi = s.at_most ok in rw ok (omega arith, omega arith)
]

stack_size-InBuffer : (ops : List Operand) → InBuffer (stack_size ops)
unfolding stack_size
stack_size-InBuffer (reg r ∷ []) = ground arith
stack_size-InBuffer _ = (omega arith, omega arith)

jump_size-InBuffer : (ops : List Operand) → InBuffer (jump_size ops)
unfolding jump_size
jump_size-InBuffer (reg r ∷ []) = ground arith
jump_size-InBuffer _ = (omega arith, omega arith)

int_size-InBuffer : (ops : List Operand) → InBuffer (int_size ops)
unfolding int_size
int_size-InBuffer (imm v ∷ []) = ground arith
int_size-InBuffer _ = (omega arith, omega arith)

mov_size-InBuffer :
    (xmm : Bool) (x y : EncodedInstruction)
    → IsSized x
    → IsSized y
    → InBuffer (if Bool.not xmm then size_of y else size_of x)
mov_size-InBuffer true x y p q = size_of-InBuffer x p
mov_size-InBuffer false x y p q = size_of-InBuffer y q

pub instruction_size-InBuffer :
    (op : Opcode) (ops : List Operand) → InBuffer (encoder_instruction_size op ops)
unfolding encoder_instruction_size encoder_encode size_mov size_alu size_shift enc_idiv enc_div
instruction_size-InBuffer mov ops =
    mov_size-InBuffer (sse2_operands_use_xmm ops) _ _ (sse2_encode_move-IsSized ops)
      (enc_mov-IsSized ops)
instruction_size-InBuffer push ops = stack_size-InBuffer ops
instruction_size-InBuffer pop ops = stack_size-InBuffer ops
instruction_size-InBuffer lea ops = size_of-InBuffer _ (encoder_encode-IsSized lea ops (pos 0))
instruction_size-InBuffer movzx ops = size_of-InBuffer _ (encoder_encode-IsSized movzx ops (pos 0))
instruction_size-InBuffer movsx ops = size_of-InBuffer _ (encoder_encode-IsSized movsx ops (pos 0))
instruction_size-InBuffer add ops = size_of-InBuffer _ (encoder_encode-IsSized add ops (pos 0))
instruction_size-InBuffer sub ops = size_of-InBuffer _ (encoder_encode-IsSized sub ops (pos 0))
instruction_size-InBuffer and ops = size_of-InBuffer _ (encoder_encode-IsSized and ops (pos 0))
instruction_size-InBuffer or ops = size_of-InBuffer _ (encoder_encode-IsSized or ops (pos 0))
instruction_size-InBuffer xor ops = size_of-InBuffer _ (encoder_encode-IsSized xor ops (pos 0))
instruction_size-InBuffer cmp ops = size_of-InBuffer _ (encoder_encode-IsSized cmp ops (pos 0))
instruction_size-InBuffer imul ops = size_of-InBuffer _ (encoder_encode-IsSized imul ops (pos 0))
instruction_size-InBuffer idiv ops = size_of-InBuffer _ (encoder_encode-IsSized idiv ops (pos 0))
instruction_size-InBuffer div ops = size_of-InBuffer _ (encoder_encode-IsSized div ops (pos 0))
instruction_size-InBuffer cqo ops = size_of-InBuffer _ (encoder_encode-IsSized cqo ops (pos 0))
instruction_size-InBuffer inc ops = size_of-InBuffer _ (encoder_encode-IsSized inc ops (pos 0))
instruction_size-InBuffer dec ops = size_of-InBuffer _ (encoder_encode-IsSized dec ops (pos 0))
instruction_size-InBuffer neg ops = size_of-InBuffer _ (encoder_encode-IsSized neg ops (pos 0))
instruction_size-InBuffer not ops = size_of-InBuffer _ (encoder_encode-IsSized not ops (pos 0))
instruction_size-InBuffer addsd ops = size_of-InBuffer _ (encoder_encode-IsSized addsd ops (pos 0))
instruction_size-InBuffer subsd ops = size_of-InBuffer _ (encoder_encode-IsSized subsd ops (pos 0))
instruction_size-InBuffer mulsd ops = size_of-InBuffer _ (encoder_encode-IsSized mulsd ops (pos 0))
instruction_size-InBuffer divsd ops = size_of-InBuffer _ (encoder_encode-IsSized divsd ops (pos 0))
instruction_size-InBuffer ucomisd ops =
    size_of-InBuffer _ (encoder_encode-IsSized ucomisd ops (pos 0))
instruction_size-InBuffer xorpd ops = size_of-InBuffer _ (encoder_encode-IsSized xorpd ops (pos 0))
instruction_size-InBuffer cvtsi2sd ops =
    size_of-InBuffer _ (encoder_encode-IsSized cvtsi2sd ops (pos 0))
instruction_size-InBuffer cvttsd2si ops =
    size_of-InBuffer _ (encoder_encode-IsSized cvttsd2si ops (pos 0))
instruction_size-InBuffer test ops = size_of-InBuffer _ (encoder_encode-IsSized test ops (pos 0))
instruction_size-InBuffer sete ops = size_of-InBuffer _ (encoder_encode-IsSized sete ops (pos 0))
instruction_size-InBuffer setne ops = size_of-InBuffer _ (encoder_encode-IsSized setne ops (pos 0))
instruction_size-InBuffer setg ops = size_of-InBuffer _ (encoder_encode-IsSized setg ops (pos 0))
instruction_size-InBuffer setl ops = size_of-InBuffer _ (encoder_encode-IsSized setl ops (pos 0))
instruction_size-InBuffer setge ops = size_of-InBuffer _ (encoder_encode-IsSized setge ops (pos 0))
instruction_size-InBuffer setle ops = size_of-InBuffer _ (encoder_encode-IsSized setle ops (pos 0))
instruction_size-InBuffer seta ops = size_of-InBuffer _ (encoder_encode-IsSized seta ops (pos 0))
instruction_size-InBuffer setb ops = size_of-InBuffer _ (encoder_encode-IsSized setb ops (pos 0))
instruction_size-InBuffer setae ops = size_of-InBuffer _ (encoder_encode-IsSized setae ops (pos 0))
instruction_size-InBuffer setbe ops = size_of-InBuffer _ (encoder_encode-IsSized setbe ops (pos 0))
instruction_size-InBuffer setp ops = size_of-InBuffer _ (encoder_encode-IsSized setp ops (pos 0))
instruction_size-InBuffer setnp ops = size_of-InBuffer _ (encoder_encode-IsSized setnp ops (pos 0))
instruction_size-InBuffer shl ops = size_of-InBuffer _ (enc_shift-IsSized ops 4)
instruction_size-InBuffer shr ops = size_of-InBuffer _ (enc_shift-IsSized ops 4)
instruction_size-InBuffer sar ops = size_of-InBuffer _ (enc_shift-IsSized ops 4)
instruction_size-InBuffer jmp ops = jump_size-InBuffer ops
instruction_size-InBuffer call ops = jump_size-InBuffer ops
instruction_size-InBuffer ret ops = (omega arith, omega arith)
instruction_size-InBuffer je ops = (omega arith, omega arith)
instruction_size-InBuffer jne ops = (omega arith, omega arith)
instruction_size-InBuffer jg ops = (omega arith, omega arith)
instruction_size-InBuffer jge ops = (omega arith, omega arith)
instruction_size-InBuffer jl ops = (omega arith, omega arith)
instruction_size-InBuffer jle ops = (omega arith, omega arith)
instruction_size-InBuffer jz ops = (omega arith, omega arith)
instruction_size-InBuffer jnz ops = (omega arith, omega arith)
instruction_size-InBuffer js ops = (omega arith, omega arith)
instruction_size-InBuffer jns ops = (omega arith, omega arith)
instruction_size-InBuffer syscall ops = (omega arith, omega arith)
instruction_size-InBuffer nop ops = (omega arith, omega arith)
instruction_size-InBuffer rdtsc ops = (omega arith, omega arith)
instruction_size-InBuffer hlt ops = (omega arith, omega arith)
instruction_size-InBuffer int ops = int_size-InBuffer ops
instruction_size-InBuffer count ops = (omega arith, omega arith)
instruction_size-InBuffer invalid ops = (omega arith, omega arith)
