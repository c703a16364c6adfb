-- ===== src/Encoder/Agreement.antt =====
-- The first pass and the second agree on the length of every instruction.
use mathlib.Core.Bool
use nazm.Prelude.{ℕ, ◌≡◌, refl, ◌∙◌, Bool, true, false, List, [], ◌∷◌, if◌then◌else◌, ℤ, arith}
use nazm.Encoder.Bytes.{rex_required}
use nazm.Encoder.Operands.{Operand, reg, imm, label}
use nazm.Encoder.Opcodes.{
  Opcode, mov, push, pop, lea, movzx, movsx, add, sub, and, or, xor, cmp, imul, idiv, div, cqo, inc,
  dec, neg, not, addsd, subsd, mulsd, divsd, ucomisd, xorpd, cvtsi2sd, cvttsd2si, test, sete, setne,
  setg, setl, setge, setle, seta, setb, setae, setbe, setp, setnp, shl, shr, sar, jmp, call, ret,
  je, jne, jg, jge, jl, jle, jz, jnz, js, jns, syscall, nop, rdtsc, hlt, int, count, invalid,
}
use nazm.Encoder.Emit.{◌>>◌, emit, skip, emit_rex, emit32, EncodedInstruction, encoded, size_of}
use nazm.Encoder.Mov.{enc_mov, enc_push, enc_pop, size_mov}
use nazm.Encoder.Shape.{enc_shift-SameShape}
use nazm.Encoder.Arith.{enc_idiv, enc_div, enc_shift, size_shift, size_alu}
use nazm.Encoder.Flow.{
  enc_jmp, enc_call, enc_jcc, enc_int, enc_ret, enc_nop, enc_rdtsc, enc_hlt, enc_syscall,
}
use nazm.Encoder.Sse2.{sse2_operands_use_xmm, sse2_encode_move}
use nazm.Encoder.Table.{encoder_encode, stack_size, jump_size, int_size, encoder_instruction_size}

pub size_of-len : (e : EncodedInstruction) → e.error ≡ false → size_of e ≡ e.len
size_of-len e h = rw h

mov_size :
    (xmm : Bool) (x y : EncodedInstruction)
    → (if xmm then x else y).error ≡ false
    → (if Bool.not xmm then size_of y else size_of x) ≡ (if xmm then x else y).len
mov_size true x y h = size_of-len x h
mov_size false x y h = size_of-len y h

push_size :
    (ops : List Operand) → (enc_push ops).error ≡ false → stack_size ops ≡ (enc_push ops).len
unfolding enc_push stack_size encoded emit skip ◌>>◌
push_size (reg r ∷ []) h = ground arith
push_size _ h = cc

pop_size : (ops : List Operand) → (enc_pop ops).error ≡ false → stack_size ops ≡ (enc_pop ops).len
unfolding enc_pop stack_size encoded emit skip ◌>>◌
pop_size (reg r ∷ []) h = ground arith
pop_size _ h = cc

jmp_size :
    (ops : List Operand) (target : ℤ)
    → (enc_jmp ops target).error ≡ false
    → jump_size ops ≡ (enc_jmp ops target).len
unfolding enc_jmp jump_size encoded emit skip emit_rex emit32 ◌>>◌ rex_required
jmp_size (reg r ∷ []) target h = ground arith
jmp_size (label _ ∷ []) target h = ground arith
jmp_size _ target h = cc

call_size :
    (ops : List Operand) (target : ℤ)
    → (enc_call ops target).error ≡ false
    → jump_size ops ≡ (enc_call ops target).len
unfolding enc_call jump_size encoded emit skip emit_rex emit32 ◌>>◌ rex_required
call_size (reg r ∷ []) target h = ground arith
call_size (label _ ∷ []) target h = ground arith
call_size _ target h = cc

jcc_size :
    (ops : List Operand) (target : ℤ) (opcode2 : ℕ)
    → (enc_jcc ops target opcode2).error ≡ false
    → 6 ≡ (enc_jcc ops target opcode2).len
unfolding enc_jcc encoded emit emit32 ◌>>◌
jcc_size (label _ ∷ []) target opcode2 h = ground arith
jcc_size _ target opcode2 h = cc

int_size_lem : (ops : List Operand) → (enc_int ops).error ≡ false → int_size ops ≡ (enc_int ops).len
unfolding enc_int int_size encoded emit ◌>>◌
int_size_lem (imm v ∷ []) h = ground arith
int_size_lem _ h = cc

shift_size :
    (ops : List Operand) (ext : ℕ)
    → (enc_shift ops ext).error ≡ false
    → size_of (enc_shift ops 4) ≡ (enc_shift ops ext).len
shift_size ops ext h =
    let same = enc_shift-SameShape ops ext in
    size_of-len (enc_shift ops 4) (same.errors ∙ h) ∙ same.lens

-- For every instruction that the encoder takes without an error, at whatever target, the size
-- estimate of the first pass is the length of the encoding.
pub instruction_size-encode :
    (op : Opcode) (ops : List Operand) (target : ℤ)
    → (encoder_encode op ops target).error ≡ false
    → encoder_instruction_size op ops ≡ (encoder_encode op ops target).len
unfolding encoder_encode encoder_instruction_size size_mov size_alu size_shift enc_ret enc_nop
    enc_rdtsc enc_hlt enc_syscall emit encoded ◌>>◌ enc_idiv enc_div
instruction_size-encode mov ops target h =
    mov_size (sse2_operands_use_xmm ops) (sse2_encode_move ops) (enc_mov ops) h
instruction_size-encode push ops target h = push_size ops h
instruction_size-encode pop ops target h = pop_size ops h
instruction_size-encode lea ops target h = size_of-len (encoder_encode lea ops target) h
instruction_size-encode movzx ops target h = size_of-len (encoder_encode movzx ops target) h
instruction_size-encode movsx ops target h = size_of-len (encoder_encode movsx ops target) h
instruction_size-encode add ops target h = size_of-len (encoder_encode add ops target) h
instruction_size-encode sub ops target h = size_of-len (encoder_encode sub ops target) h
instruction_size-encode and ops target h = size_of-len (encoder_encode and ops target) h
instruction_size-encode or ops target h = size_of-len (encoder_encode or ops target) h
instruction_size-encode xor ops target h = size_of-len (encoder_encode xor ops target) h
instruction_size-encode cmp ops target h = size_of-len (encoder_encode cmp ops target) h
instruction_size-encode imul ops target h = size_of-len (encoder_encode imul ops target) h
instruction_size-encode idiv ops target h = size_of-len (encoder_encode idiv ops target) h
instruction_size-encode div ops target h = size_of-len (encoder_encode div ops target) h
instruction_size-encode cqo ops target h = size_of-len (encoder_encode cqo ops target) h
instruction_size-encode inc ops target h = size_of-len (encoder_encode inc ops target) h
instruction_size-encode dec ops target h = size_of-len (encoder_encode dec ops target) h
instruction_size-encode neg ops target h = size_of-len (encoder_encode neg ops target) h
instruction_size-encode not ops target h = size_of-len (encoder_encode not ops target) h
instruction_size-encode addsd ops target h = size_of-len (encoder_encode addsd ops target) h
instruction_size-encode subsd ops target h = size_of-len (encoder_encode subsd ops target) h
instruction_size-encode mulsd ops target h = size_of-len (encoder_encode mulsd ops target) h
instruction_size-encode divsd ops target h = size_of-len (encoder_encode divsd ops target) h
instruction_size-encode ucomisd ops target h = size_of-len (encoder_encode ucomisd ops target) h
instruction_size-encode xorpd ops target h = size_of-len (encoder_encode xorpd ops target) h
instruction_size-encode cvtsi2sd ops target h = size_of-len (encoder_encode cvtsi2sd ops target) h
instruction_size-encode cvttsd2si ops target h = size_of-len (encoder_encode cvttsd2si ops target) h
instruction_size-encode test ops target h = size_of-len (encoder_encode test ops target) h
instruction_size-encode sete ops target h = size_of-len (encoder_encode sete ops target) h
instruction_size-encode setne ops target h = size_of-len (encoder_encode setne ops target) h
instruction_size-encode setg ops target h = size_of-len (encoder_encode setg ops target) h
instruction_size-encode setl ops target h = size_of-len (encoder_encode setl ops target) h
instruction_size-encode setge ops target h = size_of-len (encoder_encode setge ops target) h
instruction_size-encode setle ops target h = size_of-len (encoder_encode setle ops target) h
instruction_size-encode seta ops target h = size_of-len (encoder_encode seta ops target) h
instruction_size-encode setb ops target h = size_of-len (encoder_encode setb ops target) h
instruction_size-encode setae ops target h = size_of-len (encoder_encode setae ops target) h
instruction_size-encode setbe ops target h = size_of-len (encoder_encode setbe ops target) h
instruction_size-encode setp ops target h = size_of-len (encoder_encode setp ops target) h
instruction_size-encode setnp ops target h = size_of-len (encoder_encode setnp ops target) h
instruction_size-encode shl ops target h = size_of-len (encoder_encode shl ops target) h
instruction_size-encode shr ops target h = shift_size ops _ h
instruction_size-encode sar ops target h = shift_size ops _ h
instruction_size-encode jmp ops target h = jmp_size ops target h
instruction_size-encode call ops target h = call_size ops target h
instruction_size-encode ret ops target h = refl
instruction_size-encode je ops target h = jcc_size ops target _ h
instruction_size-encode jne ops target h = jcc_size ops target _ h
instruction_size-encode jg ops target h = jcc_size ops target _ h
instruction_size-encode jge ops target h = jcc_size ops target _ h
instruction_size-encode jl ops target h = jcc_size ops target _ h
instruction_size-encode jle ops target h = jcc_size ops target _ h
instruction_size-encode jz ops target h = jcc_size ops target _ h
instruction_size-encode jnz ops target h = jcc_size ops target _ h
instruction_size-encode js ops target h = jcc_size ops target _ h
instruction_size-encode jns ops target h = jcc_size ops target _ h
instruction_size-encode syscall ops target h = refl
instruction_size-encode nop ops target h = refl
instruction_size-encode rdtsc ops target h = refl
instruction_size-encode hlt ops target h = refl
instruction_size-encode int ops target h = int_size_lem ops h
instruction_size-encode count ops target h = cc
instruction_size-encode invalid ops target h = cc
