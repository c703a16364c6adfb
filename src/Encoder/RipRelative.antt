-- ===== src/Encoder/RipRelative.antt =====
-- Every encoding that takes a RIP-relative operand ends with its 32-bit displacement.
use nazm.Prelude.{
  ℕ, ◌≤◌, ◌≡◌, refl, Bool, true, false, ◌&&◌, List, [], ◌∷◌, ℤ, leb, if◌then◌else◌, arith,
}
use nazm.Encoder.Registers.{RegId}
use nazm.Encoder.Operands.{Operand, reg, mem_rip_label}
use nazm.Encoder.Opcodes.{
  Opcode, mov, push, pop, lea, movzx, movsx, add, sub, and, or, xor, cmp, imul, idiv, div, cqo, inc,
  dec, neg, not, addsd, subsd, mulsd, divsd, ucomisd, xorpd, cvtsi2sd, cvttsd2si, test, sete, setne,
  setg, setl, setge, setle, seta, setb, setae, setbe, setp, setnp, shl, shr, sar, jmp, call, ret,
  je, jne, jg, jge, jl, jle, jz, jnz, js, jns, syscall, nop, rdtsc, hlt, int, count, invalid,
}
use nazm.Encoder.Emit.{Emit, EncodedInstruction, make_error, encoded}
use nazm.Encoder.Emit.Adds.{Adds}
use nazm.Encoder.Emit.Helpers.{emitting}
use nazm.Encoder.Mov.{enc_mov, mov_rip, enc_movx, enc_push, enc_pop, enc_lea}
use nazm.Encoder.Arith.{
  enc_alu, enc_unary, enc_imul, enc_idiv, enc_div, enc_divide, enc_cqo, enc_shift, enc_test,
}
use nazm.Encoder.Flow.{enc_setcc, enc_jmp, enc_call, enc_jcc, enc_int}
use nazm.Encoder.Sse2.{
  sse2_operands_use_xmm, sse2_encode_move, encode_xmm_binary, encode_cvtsi2sd, encode_cvttsd2si,
  sse2_encode,
}
use nazm.Encoder.Table.{encoder_encode}

abbrev pub has_rip : List Operand → Bool
has_rip [] = false
has_rip (mem_rip_label l ∷ ops) = true
has_rip (_ ∷ ops) = has_rip ops

-- The opcodes whose encoder does not look at the operands.
abbrev pub ignores_operands : Opcode → Bool
ignores_operands ret = true
ignores_operands syscall = true
ignores_operands nop = true
ignores_operands rdtsc = true
ignores_operands hlt = true
ignores_operands _ = false

-- An encoding that has room for a displacement, if it has no error.
abbrev pub HoldsDisplacement : EncodedInstruction → Type 0
HoldsDisplacement e = e.error ≡ false → 4 ≤ e.len

checked-Holds :
    (c : Bool) (x : EncodedInstruction)
    → HoldsDisplacement x
    → HoldsDisplacement (if c then make_error else x)
checked-Holds true x p h = absurd (ground arith)
checked-Holds false x p h = p h

encoded-Holds :
    (f : Emit) (p : Adds f)
    → (leb 4 p.least && leb p.most 15) ≡ true
    → HoldsDisplacement (encoded f)
unfolding encoded
encoded-Holds f p fits h =
    let (lo, hi) = bounds in rw (p.appends [] (omega arith)) (omega (arith, p.least_le))
  where
    bounds : (4 ≤ p.least) × (p.most ≤ 15)
    bounds = ground arith

mov_rip-Holds : (opcode8 opcode : ℕ) (r : RegId) → HoldsDisplacement (mov_rip opcode8 opcode r)
unfolding mov_rip
mov_rip-Holds opcode8 opcode r = checked-Holds _ _ (encoded-Holds _ (search emitting depth 12) refl)

abbrev Rip : (List Operand → EncodedInstruction) → Type 0
Rip f = (ops : List Operand) → has_rip ops ≡ true → HoldsDisplacement (f ops)

enc_mov-Rip : Rip enc_mov
unfolding enc_mov
enc_mov-Rip (reg dst ∷ mem_rip_label _ ∷ []) r h = mov_rip-Holds _ _ dst h
enc_mov-Rip (mem_rip_label _ ∷ reg src ∷ []) r h = mov_rip-Holds _ _ src h
enc_mov-Rip _ r h = absurd (ground arith)

enc_lea-Rip : Rip enc_lea
unfolding enc_lea
enc_lea-Rip (reg dst ∷ mem_rip_label _ ∷ []) r h =
    checked-Holds _ _ (encoded-Holds _ (search emitting depth 12) refl) h
enc_lea-Rip _ r h = absurd (ground arith)

enc_push-Rip : Rip enc_push
unfolding enc_push
enc_push-Rip _ r h = absurd (ground arith)

enc_pop-Rip : Rip enc_pop
unfolding enc_pop
enc_pop-Rip _ r h = absurd (ground arith)

enc_imul-Rip : Rip enc_imul
unfolding enc_imul
enc_imul-Rip _ r h = absurd (ground arith)

enc_cqo-Rip : Rip enc_cqo
unfolding enc_cqo
enc_cqo-Rip _ r h = absurd (ground arith)

enc_test-Rip : Rip enc_test
unfolding enc_test
enc_test-Rip _ r h = absurd (ground arith)

enc_int-Rip : Rip enc_int
unfolding enc_int
enc_int-Rip _ r h = absurd (ground arith)

sse2_encode_move-Rip : Rip sse2_encode_move
unfolding sse2_encode_move
sse2_encode_move-Rip _ r h = absurd (ground arith)

encode_cvtsi2sd-Rip : Rip encode_cvtsi2sd
unfolding encode_cvtsi2sd
encode_cvtsi2sd-Rip _ r h = absurd (ground arith)

encode_cvttsd2si-Rip : Rip encode_cvttsd2si
unfolding encode_cvttsd2si
encode_cvttsd2si-Rip _ r h = absurd (ground arith)

enc_movx-Rip : (sign : Bool) → Rip (λ ops. enc_movx ops sign)
unfolding enc_movx
enc_movx-Rip sign _ r h = absurd (ground arith)

enc_unary-Rip : (ext : ℕ) → Rip (λ ops. enc_unary ops ext)
unfolding enc_unary
enc_unary-Rip ext _ r h = absurd (ground arith)

enc_divide-Rip : (ext : ℕ) → Rip (λ ops. enc_divide ops ext)
unfolding enc_divide
enc_divide-Rip ext _ r h = absurd (ground arith)

enc_shift-Rip : (ext : ℕ) → Rip (λ ops. enc_shift ops ext)
unfolding enc_shift
enc_shift-Rip ext _ r h = absurd (ground arith)

enc_setcc-Rip : (code : ℕ) → Rip (λ ops. enc_setcc ops code)
unfolding enc_setcc
enc_setcc-Rip code _ r h = absurd (ground arith)

enc_jmp-Rip : (t : ℤ) → Rip (λ ops. enc_jmp ops t)
unfolding enc_jmp
enc_jmp-Rip t _ r h = absurd (ground arith)

enc_call-Rip : (t : ℤ) → Rip (λ ops. enc_call ops t)
unfolding enc_call
enc_call-Rip t _ r h = absurd (ground arith)

enc_alu-Rip : (a b : ℕ) → Rip (λ ops. enc_alu ops a b)
unfolding enc_alu
enc_alu-Rip a b _ r h = absurd (ground arith)

encode_xmm_binary-Rip : (a b : ℕ) → Rip (λ ops. encode_xmm_binary ops a b)
unfolding encode_xmm_binary
encode_xmm_binary-Rip a b _ r h = absurd (ground arith)

enc_jcc-Rip : (t : ℤ) (code : ℕ) → Rip (λ ops. enc_jcc ops t code)
unfolding enc_jcc
enc_jcc-Rip t code _ r h = absurd (ground arith)

if-Holds :
    (c : Bool) (x y : EncodedInstruction)
    → HoldsDisplacement x
    → HoldsDisplacement y
    → HoldsDisplacement (if c then x else y)
if-Holds true x y p q = p
if-Holds false x y p q = q

pub encoder_encode-Rip :
    (op : Opcode) (target : ℤ)
    → ignores_operands op ≡ false
    → Rip (λ ops. encoder_encode op ops target)
unfolding encoder_encode enc_idiv enc_div sse2_encode
encoder_encode-Rip mov target looks ops r =
    if-Holds (sse2_operands_use_xmm ops) _ _ (sse2_encode_move-Rip ops r) (enc_mov-Rip ops r)
encoder_encode-Rip push target looks ops r = enc_push-Rip ops r
encoder_encode-Rip pop target looks ops r = enc_pop-Rip ops r
encoder_encode-Rip lea target looks ops r = enc_lea-Rip ops r
encoder_encode-Rip movzx target looks ops r = enc_movx-Rip _ ops r
encoder_encode-Rip movsx target looks ops r = enc_movx-Rip _ ops r
encoder_encode-Rip add target looks ops r = enc_alu-Rip _ _ ops r
encoder_encode-Rip sub target looks ops r = enc_alu-Rip _ _ ops r
encoder_encode-Rip and target looks ops r = enc_alu-Rip _ _ ops r
encoder_encode-Rip or target looks ops r = enc_alu-Rip _ _ ops r
encoder_encode-Rip xor target looks ops r = enc_alu-Rip _ _ ops r
encoder_encode-Rip cmp target looks ops r = enc_alu-Rip _ _ ops r
encoder_encode-Rip imul target looks ops r = enc_imul-Rip ops r
encoder_encode-Rip idiv target looks ops r = enc_divide-Rip _ ops r
encoder_encode-Rip div target looks ops r = enc_divide-Rip _ ops r
encoder_encode-Rip cqo target looks ops r = enc_cqo-Rip ops r
encoder_encode-Rip inc target looks ops r = enc_unary-Rip _ ops r
encoder_encode-Rip dec target looks ops r = enc_unary-Rip _ ops r
encoder_encode-Rip neg target looks ops r = enc_unary-Rip _ ops r
encoder_encode-Rip not target looks ops r = enc_unary-Rip _ ops r
encoder_encode-Rip addsd target looks ops r = encode_xmm_binary-Rip _ _ ops r
encoder_encode-Rip subsd target looks ops r = encode_xmm_binary-Rip _ _ ops r
encoder_encode-Rip mulsd target looks ops r = encode_xmm_binary-Rip _ _ ops r
encoder_encode-Rip divsd target looks ops r = encode_xmm_binary-Rip _ _ ops r
encoder_encode-Rip ucomisd target looks ops r = encode_xmm_binary-Rip _ _ ops r
encoder_encode-Rip xorpd target looks ops r = encode_xmm_binary-Rip _ _ ops r
encoder_encode-Rip cvtsi2sd target looks ops r = encode_cvtsi2sd-Rip ops r
encoder_encode-Rip cvttsd2si target looks ops r = encode_cvttsd2si-Rip ops r
encoder_encode-Rip test target looks ops r = enc_test-Rip ops r
encoder_encode-Rip sete target looks ops r = enc_setcc-Rip _ ops r
encoder_encode-Rip setne target looks ops r = enc_setcc-Rip _ ops r
encoder_encode-Rip setg target looks ops r = enc_setcc-Rip _ ops r
encoder_encode-Rip setl target looks ops r = enc_setcc-Rip _ ops r
encoder_encode-Rip setge target looks ops r = enc_setcc-Rip _ ops r
encoder_encode-Rip setle target looks ops r = enc_setcc-Rip _ ops r
encoder_encode-Rip seta target looks ops r = enc_setcc-Rip _ ops r
encoder_encode-Rip setb target looks ops r = enc_setcc-Rip _ ops r
encoder_encode-Rip setae target looks ops r = enc_setcc-Rip _ ops r
encoder_encode-Rip setbe target looks ops r = enc_setcc-Rip _ ops r
encoder_encode-Rip setp target looks ops r = enc_setcc-Rip _ ops r
encoder_encode-Rip setnp target looks ops r = enc_setcc-Rip _ ops r
encoder_encode-Rip shl target looks ops r = enc_shift-Rip _ ops r
encoder_encode-Rip shr target looks ops r = enc_shift-Rip _ ops r
encoder_encode-Rip sar target looks ops r = enc_shift-Rip _ ops r
encoder_encode-Rip jmp target looks ops r = enc_jmp-Rip _ ops r
encoder_encode-Rip call target looks ops r = enc_call-Rip _ ops r
encoder_encode-Rip ret target looks ops r = absurd (ground arith)
encoder_encode-Rip je target looks ops r = enc_jcc-Rip _ _ ops r
encoder_encode-Rip jne target looks ops r = enc_jcc-Rip _ _ ops r
encoder_encode-Rip jg target looks ops r = enc_jcc-Rip _ _ ops r
encoder_encode-Rip jge target looks ops r = enc_jcc-Rip _ _ ops r
encoder_encode-Rip jl target looks ops r = enc_jcc-Rip _ _ ops r
encoder_encode-Rip jle target looks ops r = enc_jcc-Rip _ _ ops r
encoder_encode-Rip jz target looks ops r = enc_jcc-Rip _ _ ops r
encoder_encode-Rip jnz target looks ops r = enc_jcc-Rip _ _ ops r
encoder_encode-Rip js target looks ops r = enc_jcc-Rip _ _ ops r
encoder_encode-Rip jns target looks ops r = enc_jcc-Rip _ _ ops r
encoder_encode-Rip syscall target looks ops r = absurd (ground arith)
encoder_encode-Rip nop target looks ops r = absurd (ground arith)
encoder_encode-Rip rdtsc target looks ops r = absurd (ground arith)
encoder_encode-Rip hlt target looks ops r = absurd (ground arith)
encoder_encode-Rip int target looks ops r = enc_int-Rip ops r
encoder_encode-Rip count target looks ops r = λ h. absurd (ground arith)
encoder_encode-Rip invalid target looks ops r = λ h. absurd (ground arith)
