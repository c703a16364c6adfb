-- ===== src/Encoder/Sizes/Mov.antt =====
-- Bounds on the length of the data movement instructions.
use nazm.Prelude.{ℕ, refl, Bool, not, ◌==◌, List, [], ◌∷◌, ℤ}
use nazm.Encoder.Registers.{RegId, reg_width_bits}
use nazm.Encoder.Bytes.{immediate_fits_i32}
use nazm.Encoder.Operands.{Operand, reg, imm, mem_reg, mem_disp, mem_rip_label, label}
use nazm.Encoder.Emit.{valid_integer_width, exceeds_8, exceeds_16, exceeds_32}
use nazm.Encoder.Emit.Helpers.{emitting}
use nazm.Encoder.Mov.{
  mov_imm, mov_label, mov_reg, mov_mem, mov_rip, enc_mov, enc_movx, enc_push, enc_pop, lea_mem,
  enc_lea,
}
use nazm.Encoder.Bounds.{IsSized, error-IsSized, encoded-IsSized, if-IsSized, checked-IsSized}

mov_imm-IsSized : (dst : RegId) (v : ℤ) → IsSized (mov_imm dst v)
unfolding mov_imm
mov_imm-IsSized dst v =
    let width = reg_width_bits dst in
    checked-IsSized (not (valid_integer_width width)) (
      if-IsSized (width == 8)
        (checked-IsSized (exceeds_8 v) (encoded-IsSized _ (search emitting depth 12) refl))
        (if-IsSized (width == 16)
          (checked-IsSized (exceeds_16 v) (encoded-IsSized _ (search emitting depth 12) refl))
          (if-IsSized (width == 32)
            (checked-IsSized (exceeds_32 v) (encoded-IsSized _ (search emitting depth 12) refl))
            (if-IsSized (immediate_fits_i32 v) (encoded-IsSized _ (search emitting depth 12) refl)
              (encoded-IsSized _ (search emitting depth 12) refl)))))

mov_label-IsSized : (dst : RegId) → IsSized (mov_label dst)
unfolding mov_label
mov_label-IsSized dst = checked-IsSized _ (encoded-IsSized _ (search emitting depth 12) refl)

mov_reg-IsSized : (dst src : RegId) → IsSized (mov_reg dst src)
unfolding mov_reg
mov_reg-IsSized dst src = checked-IsSized _ (encoded-IsSized _ (search emitting depth 12) refl)

mov_mem-IsSized :
    (opcode8 opcode : ℕ) (r base : RegId) (disp : ℤ) → IsSized (mov_mem opcode8 opcode r base disp)
unfolding mov_mem
mov_mem-IsSized opcode8 opcode r base disp =
    checked-IsSized _ (encoded-IsSized _ (search emitting depth 12) refl)

mov_rip-IsSized : (opcode8 opcode : ℕ) (r : RegId) → IsSized (mov_rip opcode8 opcode r)
unfolding mov_rip
mov_rip-IsSized opcode8 opcode r =
    checked-IsSized _ (encoded-IsSized _ (search emitting depth 12) refl)

pub enc_mov-IsSized : (ops : List Operand) → IsSized (enc_mov ops)
unfolding enc_mov
enc_mov-IsSized (reg dst ∷ imm v ∷ []) = mov_imm-IsSized dst v
enc_mov-IsSized (reg dst ∷ label _ ∷ []) = mov_label-IsSized dst
enc_mov-IsSized (reg dst ∷ reg src ∷ []) = mov_reg-IsSized dst src
enc_mov-IsSized (reg dst ∷ mem_reg base ∷ []) = mov_mem-IsSized _ _ dst base _
enc_mov-IsSized (reg dst ∷ mem_disp base disp ∷ []) = mov_mem-IsSized _ _ dst base _
enc_mov-IsSized (reg dst ∷ mem_rip_label _ ∷ []) = mov_rip-IsSized _ _ dst
enc_mov-IsSized (mem_reg base ∷ reg src ∷ []) = mov_mem-IsSized _ _ src base _
enc_mov-IsSized (mem_disp base disp ∷ reg src ∷ []) = mov_mem-IsSized _ _ src base _
enc_mov-IsSized (mem_rip_label _ ∷ reg src ∷ []) = mov_rip-IsSized _ _ src
enc_mov-IsSized _ = error-IsSized

pub enc_movx-IsSized : (ops : List Operand) (sign : Bool) → IsSized (enc_movx ops sign)
unfolding enc_movx
enc_movx-IsSized (reg dst ∷ reg src ∷ []) sign =
    checked-IsSized _ (encoded-IsSized _ (search emitting depth 12) refl)
enc_movx-IsSized _ sign = error-IsSized

pub enc_push-IsSized : (ops : List Operand) → IsSized (enc_push ops)
unfolding enc_push
enc_push-IsSized (reg r ∷ []) =
    checked-IsSized _ (encoded-IsSized _ (search emitting depth 12) refl)
enc_push-IsSized _ = error-IsSized

pub enc_pop-IsSized : (ops : List Operand) → IsSized (enc_pop ops)
unfolding enc_pop
enc_pop-IsSized (reg r ∷ []) = checked-IsSized _ (encoded-IsSized _ (search emitting depth 12) refl)
enc_pop-IsSized _ = error-IsSized

lea_mem-IsSized : (dst base : RegId) (disp : ℤ) → IsSized (lea_mem dst base disp)
unfolding lea_mem
lea_mem-IsSized dst base disp =
    checked-IsSized _ (encoded-IsSized _ (search emitting depth 12) refl)

pub enc_lea-IsSized : (ops : List Operand) → IsSized (enc_lea ops)
unfolding enc_lea
enc_lea-IsSized (reg dst ∷ mem_rip_label _ ∷ []) =
    checked-IsSized _ (encoded-IsSized _ (search emitting depth 12) refl)
enc_lea-IsSized (reg dst ∷ mem_reg base ∷ []) = lea_mem-IsSized dst base _
enc_lea-IsSized (reg dst ∷ mem_disp base disp ∷ []) = lea_mem-IsSized dst base _
enc_lea-IsSized _ = error-IsSized
