-- ===== src/Encoder/Sizes/Flow.antt =====
-- Bounds on the length of SETcc, jumps, calls and the instructions with no operand.
use nazm.Prelude.{ℕ, refl, List, [], ◌∷◌, ℤ}
use nazm.Encoder.Registers.{RegId}
use nazm.Encoder.Operands.{Operand, reg, imm, mem_reg, mem_disp, label}
use nazm.Encoder.Emit.Helpers.{emitting}
use nazm.Encoder.Flow.{
  setcc_mem, enc_setcc, enc_jmp, enc_call, enc_jcc, enc_ret, enc_nop, enc_rdtsc, enc_hlt,
  enc_syscall, enc_int,
}
use nazm.Encoder.Bounds.{IsSized, error-IsSized, encoded-IsSized, checked-IsSized}

setcc_mem-IsSized : (base : RegId) (disp : ℤ) (opcode2 : ℕ) → IsSized (setcc_mem base disp opcode2)
unfolding setcc_mem
setcc_mem-IsSized base disp opcode2 =
    checked-IsSized _ (encoded-IsSized _ (search emitting depth 12) refl)

pub enc_setcc-IsSized : (ops : List Operand) (opcode2 : ℕ) → IsSized (enc_setcc ops opcode2)
unfolding enc_setcc
enc_setcc-IsSized (reg r ∷ []) opcode2 =
    checked-IsSized _ (encoded-IsSized _ (search emitting depth 12) refl)
enc_setcc-IsSized (mem_reg base ∷ []) opcode2 = setcc_mem-IsSized base _ opcode2
enc_setcc-IsSized (mem_disp base disp ∷ []) opcode2 = setcc_mem-IsSized base _ opcode2
enc_setcc-IsSized _ opcode2 = error-IsSized

pub enc_jmp-IsSized : (ops : List Operand) (disp : ℤ) → IsSized (enc_jmp ops disp)
unfolding enc_jmp
enc_jmp-IsSized (reg r ∷ []) disp =
    checked-IsSized _ (encoded-IsSized _ (search emitting depth 12) refl)
enc_jmp-IsSized (label _ ∷ []) disp =
    checked-IsSized _ (encoded-IsSized _ (search emitting depth 12) refl)
enc_jmp-IsSized _ disp = error-IsSized

pub enc_call-IsSized : (ops : List Operand) (disp : ℤ) → IsSized (enc_call ops disp)
unfolding enc_call
enc_call-IsSized (reg r ∷ []) disp =
    checked-IsSized _ (encoded-IsSized _ (search emitting depth 12) refl)
enc_call-IsSized (label _ ∷ []) disp =
    checked-IsSized _ (encoded-IsSized _ (search emitting depth 12) refl)
enc_call-IsSized _ disp = error-IsSized

pub enc_jcc-IsSized :
    (ops : List Operand) (disp : ℤ) (opcode2 : ℕ) → IsSized (enc_jcc ops disp opcode2)
unfolding enc_jcc
enc_jcc-IsSized (label _ ∷ []) disp opcode2 =
    checked-IsSized _ (encoded-IsSized _ (search emitting depth 12) refl)
enc_jcc-IsSized _ disp opcode2 = error-IsSized

pub enc_ret-IsSized : IsSized enc_ret
unfolding enc_ret
enc_ret-IsSized = encoded-IsSized _ (search emitting depth 12) refl

pub enc_nop-IsSized : IsSized enc_nop
unfolding enc_nop
enc_nop-IsSized = encoded-IsSized _ (search emitting depth 12) refl

pub enc_rdtsc-IsSized : IsSized enc_rdtsc
unfolding enc_rdtsc
enc_rdtsc-IsSized = encoded-IsSized _ (search emitting depth 12) refl

pub enc_hlt-IsSized : IsSized enc_hlt
unfolding enc_hlt
enc_hlt-IsSized = encoded-IsSized _ (search emitting depth 12) refl

pub enc_syscall-IsSized : IsSized enc_syscall
unfolding enc_syscall
enc_syscall-IsSized = encoded-IsSized _ (search emitting depth 12) refl

pub enc_int-IsSized : (ops : List Operand) → IsSized (enc_int ops)
unfolding enc_int
enc_int-IsSized (imm v ∷ []) = checked-IsSized _ (encoded-IsSized _ (search emitting depth 12) refl)
enc_int-IsSized _ = error-IsSized
