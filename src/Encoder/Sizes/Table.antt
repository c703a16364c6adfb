-- ===== src/Encoder/Sizes/Table.antt =====
-- Bounds on the length of every instruction that `encoder_encode` returns.
use nazm.Prelude.{◌≤◌, ◌≡◌, sym, false, List, length, ℤ}
use nazm.Encoder.Operands.{Operand}
use nazm.Encoder.Opcodes.{
  Opcode, mov, push, pop, lea, movzx, movsx, add, sub, and, or, xor, cmp, imul, idiv, div, cqo, inc,
  dec, neg, not, addsd, subsd, mulsd, divsd, ucomisd, xorpd, cvtsi2sd, cvttsd2si, test, sete, setne,
  setg, setl, setge, setle, seta, setb, setae, setbe, setp, setnp, shl, shr, sar, jmp, call, ret,
  je, jne, jg, jge, jl, jle, jz, jnz, js, jns, syscall, nop, rdtsc, hlt, int, count, invalid,
}
use nazm.Encoder.Arith.{enc_idiv, enc_div}
use nazm.Encoder.Sse2.{sse2_operands_use_xmm}
use nazm.Encoder.Table.{encoder_encode}
use nazm.Encoder.Bounds.{IsSized, error-IsSized, if-IsSized}
use nazm.Encoder.Sizes.Mov.{
  enc_mov-IsSized, enc_movx-IsSized, enc_push-IsSized, enc_pop-IsSized, enc_lea-IsSized,
}
use nazm.Encoder.Sizes.Arith.{
  enc_alu-IsSized, enc_unary-IsSized, enc_imul-IsSized, enc_divide-IsSized, enc_cqo-IsSized,
  enc_shift-IsSized, enc_test-IsSized,
}
use nazm.Encoder.Sizes.Flow.{
  enc_setcc-IsSized, enc_jmp-IsSized, enc_call-IsSized, enc_jcc-IsSized, enc_ret-IsSized,
  enc_nop-IsSized, enc_rdtsc-IsSized, enc_hlt-IsSized, enc_syscall-IsSized, enc_int-IsSized,
}
use nazm.Encoder.Sizes.Sse2.{sse2_encode_move-IsSized, sse2_encode-IsSized}

-- Each opcode dispatches to an encoder with its bounds.
pub encoder_encode-IsSized :
    (op : Opcode) (ops : List Operand) (target : ℤ) → IsSized (encoder_encode op ops target)
unfolding encoder_encode enc_idiv enc_div
encoder_encode-IsSized mov ops target =
    if-IsSized (sse2_operands_use_xmm ops) (sse2_encode_move-IsSized ops) (enc_mov-IsSized ops)
encoder_encode-IsSized push ops target = enc_push-IsSized ops
encoder_encode-IsSized pop ops target = enc_pop-IsSized ops
encoder_encode-IsSized lea ops target = enc_lea-IsSized ops
encoder_encode-IsSized movzx ops target = enc_movx-IsSized ops _
encoder_encode-IsSized movsx ops target = enc_movx-IsSized ops _
encoder_encode-IsSized add ops target = enc_alu-IsSized ops _ _
encoder_encode-IsSized sub ops target = enc_alu-IsSized ops _ _
encoder_encode-IsSized and ops target = enc_alu-IsSized ops _ _
encoder_encode-IsSized or ops target = enc_alu-IsSized ops _ _
encoder_encode-IsSized xor ops target = enc_alu-IsSized ops _ _
encoder_encode-IsSized cmp ops target = enc_alu-IsSized ops _ _
encoder_encode-IsSized imul ops target = enc_imul-IsSized ops
encoder_encode-IsSized idiv ops target = enc_divide-IsSized ops _
encoder_encode-IsSized div ops target = enc_divide-IsSized ops _
encoder_encode-IsSized cqo ops target = enc_cqo-IsSized ops
encoder_encode-IsSized inc ops target = enc_unary-IsSized ops _
encoder_encode-IsSized dec ops target = enc_unary-IsSized ops _
encoder_encode-IsSized neg ops target = enc_unary-IsSized ops _
encoder_encode-IsSized not ops target = enc_unary-IsSized ops _
encoder_encode-IsSized addsd ops target = sse2_encode-IsSized addsd ops
encoder_encode-IsSized subsd ops target = sse2_encode-IsSized subsd ops
encoder_encode-IsSized mulsd ops target = sse2_encode-IsSized mulsd ops
encoder_encode-IsSized divsd ops target = sse2_encode-IsSized divsd ops
encoder_encode-IsSized ucomisd ops target = sse2_encode-IsSized ucomisd ops
encoder_encode-IsSized xorpd ops target = sse2_encode-IsSized xorpd ops
encoder_encode-IsSized cvtsi2sd ops target = sse2_encode-IsSized cvtsi2sd ops
encoder_encode-IsSized cvttsd2si ops target = sse2_encode-IsSized cvttsd2si ops
encoder_encode-IsSized test ops target = enc_test-IsSized ops
encoder_encode-IsSized sete ops target = enc_setcc-IsSized ops _
encoder_encode-IsSized setne ops target = enc_setcc-IsSized ops _
encoder_encode-IsSized setg ops target = enc_setcc-IsSized ops _
encoder_encode-IsSized setl ops target = enc_setcc-IsSized ops _
encoder_encode-IsSized setge ops target = enc_setcc-IsSized ops _
encoder_encode-IsSized setle ops target = enc_setcc-IsSized ops _
encoder_encode-IsSized seta ops target = enc_setcc-IsSized ops _
encoder_encode-IsSized setb ops target = enc_setcc-IsSized ops _
encoder_encode-IsSized setae ops target = enc_setcc-IsSized ops _
encoder_encode-IsSized setbe ops target = enc_setcc-IsSized ops _
encoder_encode-IsSized setp ops target = enc_setcc-IsSized ops _
encoder_encode-IsSized setnp ops target = enc_setcc-IsSized ops _
encoder_encode-IsSized shl ops target = enc_shift-IsSized ops _
encoder_encode-IsSized shr ops target = enc_shift-IsSized ops _
encoder_encode-IsSized sar ops target = enc_shift-IsSized ops _
encoder_encode-IsSized jmp ops target = enc_jmp-IsSized ops target
encoder_encode-IsSized call ops target = enc_call-IsSized ops target
encoder_encode-IsSized ret ops target = enc_ret-IsSized
encoder_encode-IsSized je ops target = enc_jcc-IsSized ops target _
encoder_encode-IsSized jne ops target = enc_jcc-IsSized ops target _
encoder_encode-IsSized jg ops target = enc_jcc-IsSized ops target _
encoder_encode-IsSized jge ops target = enc_jcc-IsSized ops target _
encoder_encode-IsSized jl ops target = enc_jcc-IsSized ops target _
encoder_encode-IsSized jle ops target = enc_jcc-IsSized ops target _
encoder_encode-IsSized jz ops target = enc_jcc-IsSized ops target _
encoder_encode-IsSized jnz ops target = enc_jcc-IsSized ops target _
encoder_encode-IsSized js ops target = enc_jcc-IsSized ops target _
encoder_encode-IsSized jns ops target = enc_jcc-IsSized ops target _
encoder_encode-IsSized syscall ops target = enc_syscall-IsSized
encoder_encode-IsSized nop ops target = enc_nop-IsSized
encoder_encode-IsSized rdtsc ops target = enc_rdtsc-IsSized
encoder_encode-IsSized hlt ops target = enc_hlt-IsSized
encoder_encode-IsSized int ops target = enc_int-IsSized ops
encoder_encode-IsSized count ops target = error-IsSized
encoder_encode-IsSized invalid ops target = error-IsSized

-- An encoding without an error has one to ten bytes, and `len` is their number.
pub length-encoder_encode :
    (op : Opcode) (ops : List Operand) (target : ℤ)
    → (encoder_encode op ops target).error ≡ false
    → (1 ≤ (encoder_encode op ops target).len)
      × ((encoder_encode op ops target).len ≤ 10)
      × (length (encoder_encode op ops target).bytes ≡ (encoder_encode op ops target).len)
length-encoder_encode op ops target h =
    let s = encoder_encode-IsSized op ops target in (s.at_least h, s.at_most h, sym s.counted)
