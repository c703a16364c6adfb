-- ===== src/Encoder/Opcodes.antt =====
-- `OpcodeEnum` of encoder/encoder.h.
pub data Opcode : Type 0 where
  mov push pop lea movzx movsx : Opcode
  add sub imul idiv div cqo inc dec neg : Opcode
  addsd subsd mulsd divsd ucomisd xorpd cvtsi2sd cvttsd2si : Opcode
  and or xor not shl shr sar : Opcode
  cmp test : Opcode
  sete setne setg setl setge setle seta setb setae setbe setp setnp : Opcode
  jmp call ret : Opcode
  je jne jg jge jl jle jz jnz js jns : Opcode
  syscall nop rdtsc hlt int : Opcode
  count invalid : Opcode
