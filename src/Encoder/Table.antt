-- ===== src/Encoder/Table.antt =====
-- The public functions of encoder/table.c: the dispatch over opcodes, and the size estimate that
-- the first pass lays instructions out by.
use mathlib.Core.Bool
use nazm.Prelude.{ℕ, true, false, ◌==◌, List, [], ◌∷◌, if◌then◌else◌, ℤ}
use nazm.Encoder.Registers.{reg_width_bits, reg_needs_rex}
use nazm.Encoder.Bytes.{immediate_fits_u8}
use nazm.Encoder.Operands.{Operand, reg, imm}
use nazm.Encoder.Opcodes.{
  Opcode, mov, push, pop, lea, movzx, movsx, add, sub, and, or, xor, cmp, imul, idiv, div, cqo, inc,
  dec, neg, not, addsd, subsd, mulsd, divsd, ucomisd, xorpd, cvtsi2sd, cvttsd2si, test, sete, setne,
  setg, setl, setge, setle, seta, setb, setae, setbe, setp, setnp, shl, shr, sar, jmp, call, ret,
  je, jne, jg, jge, jl, jle, jz, jnz, js, jns, syscall, nop, rdtsc, hlt, int, count, invalid,
}
use nazm.Encoder.Emit.{EncodedInstruction, make_error, max_instruction_bytes, size_of}
use nazm.Encoder.Mov.{enc_mov, size_mov, enc_movx, enc_push, enc_pop, enc_lea}
use nazm.Encoder.Arith.{
  enc_alu, size_alu, enc_unary, enc_imul, enc_idiv, enc_div, enc_cqo, enc_shift, size_shift,
  enc_test,
}
use nazm.Encoder.Flow.{
  enc_setcc, enc_jmp, enc_call, enc_jcc, enc_ret, enc_nop, enc_rdtsc, enc_hlt, enc_syscall, enc_int,
}
use nazm.Encoder.Sse2.{sse2_operands_use_xmm, sse2_encode_move, sse2_encode}

unfoldable pub encoder_encode : Opcode → List Operand → ℤ → EncodedInstruction
encoder_encode mov ops resolved_target =
    if sse2_operands_use_xmm ops then sse2_encode_move ops else enc_mov ops
encoder_encode push ops resolved_target = enc_push ops
encoder_encode pop ops resolved_target = enc_pop ops
encoder_encode lea ops resolved_target = enc_lea ops
encoder_encode movzx ops resolved_target = enc_movx ops false
encoder_encode movsx ops resolved_target = enc_movx ops true
encoder_encode add ops resolved_target = enc_alu ops 0x01 0
encoder_encode sub ops resolved_target = enc_alu ops 0x29 5
encoder_encode and ops resolved_target = enc_alu ops 0x21 4
encoder_encode or ops resolved_target = enc_alu ops 0x09 1
encoder_encode xor ops resolved_target = enc_alu ops 0x31 6
encoder_encode cmp ops resolved_target = enc_alu ops 0x39 7
encoder_encode imul ops resolved_target = enc_imul ops
encoder_encode idiv ops resolved_target = enc_idiv ops
encoder_encode div ops resolved_target = enc_div ops
encoder_encode cqo ops resolved_target = enc_cqo ops
encoder_encode inc ops resolved_target = enc_unary ops 0
encoder_encode dec ops resolved_target = enc_unary ops 1
encoder_encode neg ops resolved_target = enc_unary ops 3
encoder_encode not ops resolved_target = enc_unary ops 2
encoder_encode addsd ops resolved_target = sse2_encode addsd ops
encoder_encode subsd ops resolved_target = sse2_encode subsd ops
encoder_encode mulsd ops resolved_target = sse2_encode mulsd ops
encoder_encode divsd ops resolved_target = sse2_encode divsd ops
encoder_encode ucomisd ops resolved_target = sse2_encode ucomisd ops
encoder_encode xorpd ops resolved_target = sse2_encode xorpd ops
encoder_encode cvtsi2sd ops resolved_target = sse2_encode cvtsi2sd ops
encoder_encode cvttsd2si ops resolved_target = sse2_encode cvttsd2si ops
encoder_encode test ops resolved_target = enc_test ops
encoder_encode sete ops resolved_target = enc_setcc ops 0x94
encoder_encode setne ops resolved_target = enc_setcc ops 0x95
encoder_encode setg ops resolved_target = enc_setcc ops 0x9F
encoder_encode setl ops resolved_target = enc_setcc ops 0x9C
encoder_encode setge ops resolved_target = enc_setcc ops 0x9D
encoder_encode setle ops resolved_target = enc_setcc ops 0x9E
encoder_encode seta ops resolved_target = enc_setcc ops 0x97
encoder_encode setb ops resolved_target = enc_setcc ops 0x92
encoder_encode setae ops resolved_target = enc_setcc ops 0x93
encoder_encode setbe ops resolved_target = enc_setcc ops 0x96
encoder_encode setp ops resolved_target = enc_setcc ops 0x9A
encoder_encode setnp ops resolved_target = enc_setcc ops 0x9B
encoder_encode shl ops resolved_target = enc_shift ops 4
encoder_encode shr ops resolved_target = enc_shift ops 5
encoder_encode sar ops resolved_target = enc_shift ops 7
encoder_encode jmp ops resolved_target = enc_jmp ops resolved_target
encoder_encode call ops resolved_target = enc_call ops resolved_target
encoder_encode ret ops resolved_target = enc_ret
encoder_encode je ops resolved_target = enc_jcc ops resolved_target 0x84
encoder_encode jne ops resolved_target = enc_jcc ops resolved_target 0x85
encoder_encode jg ops resolved_target = enc_jcc ops resolved_target 0x8F
encoder_encode jge ops resolved_target = enc_jcc ops resolved_target 0x8D
encoder_encode jl ops resolved_target = enc_jcc ops resolved_target 0x8C
encoder_encode jle ops resolved_target = enc_jcc ops resolved_target 0x8E
encoder_encode jz ops resolved_target = enc_jcc ops resolved_target 0x84
encoder_encode jnz ops resolved_target = enc_jcc ops resolved_target 0x85
encoder_encode js ops resolved_target = enc_jcc ops resolved_target 0x88
encoder_encode jns ops resolved_target = enc_jcc ops resolved_target 0x89
encoder_encode syscall ops resolved_target = enc_syscall
encoder_encode nop ops resolved_target = enc_nop
encoder_encode rdtsc ops resolved_target = enc_rdtsc
encoder_encode hlt ops resolved_target = enc_hlt
encoder_encode int ops resolved_target = enc_int ops
encoder_encode count ops resolved_target = make_error
encoder_encode invalid ops resolved_target = make_error

-- The cases OPCODE_PUSH and OPCODE_POP of the size.
unfoldable pub stack_size : List Operand → ℕ
stack_size (reg r ∷ []) =
    if Bool.not (reg_width_bits r == 64)
    then max_instruction_bytes
    else if reg_needs_rex r
    then 2
    else 1
stack_size _ = max_instruction_bytes

-- The cases OPCODE_JMP and OPCODE_CALL of the size.
unfoldable pub jump_size : List Operand → ℕ
jump_size (reg r ∷ []) =
    if Bool.not (reg_width_bits r == 64)
    then max_instruction_bytes
    else if reg_needs_rex r
    then 3
    else 2
jump_size _ = 5

-- The case OPCODE_INT of the size.
unfoldable pub int_size : List Operand → ℕ
int_size (imm v ∷ []) = if immediate_fits_u8 v then 2 else max_instruction_bytes
int_size _ = max_instruction_bytes

unfoldable pub encoder_instruction_size : Opcode → List Operand → ℕ
unfolding stack_size jump_size int_size
encoder_instruction_size mov ops =
    if Bool.not (sse2_operands_use_xmm ops) then size_mov ops else size_of (sse2_encode_move ops)
encoder_instruction_size push ops = stack_size ops
encoder_instruction_size pop ops = stack_size ops
encoder_instruction_size lea ops = size_of (enc_lea ops)
encoder_instruction_size movzx ops = size_of (enc_movx ops false)
encoder_instruction_size movsx ops = size_of (enc_movx ops true)
encoder_instruction_size add ops = size_alu ops 0x01 0
encoder_instruction_size sub ops = size_alu ops 0x29 5
encoder_instruction_size and ops = size_alu ops 0x21 4
encoder_instruction_size or ops = size_alu ops 0x09 1
encoder_instruction_size xor ops = size_alu ops 0x31 6
encoder_instruction_size cmp ops = size_alu ops 0x39 7
encoder_instruction_size imul ops = size_of (enc_imul ops)
encoder_instruction_size idiv ops = size_of (enc_idiv ops)
encoder_instruction_size div ops = size_of (enc_div ops)
encoder_instruction_size cqo ops = size_of (enc_cqo ops)
encoder_instruction_size inc ops = size_of (enc_unary ops 0)
encoder_instruction_size dec ops = size_of (enc_unary ops 1)
encoder_instruction_size neg ops = size_of (enc_unary ops 3)
encoder_instruction_size not ops = size_of (enc_unary ops 2)
encoder_instruction_size addsd ops = size_of (sse2_encode addsd ops)
encoder_instruction_size subsd ops = size_of (sse2_encode subsd ops)
encoder_instruction_size mulsd ops = size_of (sse2_encode mulsd ops)
encoder_instruction_size divsd ops = size_of (sse2_encode divsd ops)
encoder_instruction_size ucomisd ops = size_of (sse2_encode ucomisd ops)
encoder_instruction_size xorpd ops = size_of (sse2_encode xorpd ops)
encoder_instruction_size cvtsi2sd ops = size_of (sse2_encode cvtsi2sd ops)
encoder_instruction_size cvttsd2si ops = size_of (sse2_encode cvttsd2si ops)
encoder_instruction_size test ops = size_of (enc_test ops)
encoder_instruction_size sete ops = size_of (enc_setcc ops 0x94)
encoder_instruction_size setne ops = size_of (enc_setcc ops 0x95)
encoder_instruction_size setg ops = size_of (enc_setcc ops 0x9F)
encoder_instruction_size setl ops = size_of (enc_setcc ops 0x9C)
encoder_instruction_size setge ops = size_of (enc_setcc ops 0x9D)
encoder_instruction_size setle ops = size_of (enc_setcc ops 0x9E)
encoder_instruction_size seta ops = size_of (enc_setcc ops 0x97)
encoder_instruction_size setb ops = size_of (enc_setcc ops 0x92)
encoder_instruction_size setae ops = size_of (enc_setcc ops 0x93)
encoder_instruction_size setbe ops = size_of (enc_setcc ops 0x96)
encoder_instruction_size setp ops = size_of (enc_setcc ops 0x9A)
encoder_instruction_size setnp ops = size_of (enc_setcc ops 0x9B)
encoder_instruction_size shl ops = size_shift ops
encoder_instruction_size shr ops = size_shift ops
encoder_instruction_size sar ops = size_shift ops
encoder_instruction_size jmp ops = jump_size ops
encoder_instruction_size call ops = jump_size ops
encoder_instruction_size je ops = 6
encoder_instruction_size jne ops = 6
encoder_instruction_size jg ops = 6
encoder_instruction_size jge ops = 6
encoder_instruction_size jl ops = 6
encoder_instruction_size jle ops = 6
encoder_instruction_size jz ops = 6
encoder_instruction_size jnz ops = 6
encoder_instruction_size js ops = 6
encoder_instruction_size jns ops = 6
encoder_instruction_size ret ops = 1
encoder_instruction_size syscall ops = 2
encoder_instruction_size nop ops = 1
encoder_instruction_size rdtsc ops = 2
encoder_instruction_size hlt ops = 1
encoder_instruction_size int ops = int_size ops
encoder_instruction_size count ops = max_instruction_bytes
encoder_instruction_size invalid ops = max_instruction_bytes
