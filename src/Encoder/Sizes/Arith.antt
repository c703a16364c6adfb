-- ===== src/Encoder/Sizes/Arith.antt =====
-- Bounds on the length of the arithmetic and logic instructions.
use nazm.Prelude.{ℕ, ◌≡◌, refl, Bool, true, false, not, ◌||◌, ◌==◌, if◌then◌else◌, List, [], ◌∷◌, ℤ}
use nazm.Encoder.Registers.{RegId, reg_width_bits}
use nazm.Encoder.Operands.{Operand, reg, imm, mem_reg, mem_disp}
use nazm.Encoder.Emit.{Emit, ◌>>◌, encoded, valid_integer_width}
use nazm.Encoder.Emit.Helpers.{emitting}
use nazm.Encoder.Arith.{
  alu_reg, alu_imm, alu_mem, enc_alu, enc_unary, imul_reg, imul_mem, imul_imm, enc_imul, enc_divide,
  reset, enc_cqo, shift_imm, shift_reg, enc_shift, test_imm, test_reg, enc_test,
}
use nazm.Encoder.Bounds.{IsSized, error-IsSized, encoded-IsSized, if-IsSized, checked-IsSized}

alu_reg-IsSized : (dst src : RegId) (op_rr : ℕ) → IsSized (alu_reg dst src op_rr)
unfolding alu_reg
alu_reg-IsSized dst src op_rr =
    checked-IsSized _ (encoded-IsSized _ (search emitting depth 12) refl)

alu_imm-IsSized : (dst : RegId) (v : ℤ) (ri_ext : ℕ) → IsSized (alu_imm dst v ri_ext)
unfolding alu_imm
alu_imm-IsSized dst v ri_ext = checked-IsSized _ (encoded-IsSized _ (search emitting depth 12) refl)

alu_mem-IsSized : (dst base : RegId) (disp : ℤ) (op_rr : ℕ) → IsSized (alu_mem dst base disp op_rr)
unfolding alu_mem
alu_mem-IsSized dst base disp op_rr =
    checked-IsSized _ (encoded-IsSized _ (search emitting depth 12) refl)

pub enc_alu-IsSized : (ops : List Operand) (op_rr ri_ext : ℕ) → IsSized (enc_alu ops op_rr ri_ext)
unfolding enc_alu
enc_alu-IsSized (reg dst ∷ reg src ∷ []) op_rr ri_ext = alu_reg-IsSized dst src op_rr
enc_alu-IsSized (reg dst ∷ imm v ∷ []) op_rr ri_ext = alu_imm-IsSized dst v ri_ext
enc_alu-IsSized (reg dst ∷ mem_reg base ∷ []) op_rr ri_ext = alu_mem-IsSized dst base _ op_rr
enc_alu-IsSized (reg dst ∷ mem_disp base disp ∷ []) op_rr ri_ext =
    alu_mem-IsSized dst base disp op_rr
enc_alu-IsSized _ op_rr ri_ext = error-IsSized

-- Emptying the buffer makes what was emitted before it void.
encoded-reset :
    (c : Bool) (f g h m rest : Emit)
    → encoded (f >> g >> h >> (if c then m else reset >> rest))
      ≡ (if c then encoded (f >> g >> h >> m) else encoded rest)
unfolding encoded ◌>>◌
encoded-reset true f g h m rest = refl
encoded-reset false f g h m rest = refl

pub enc_unary-IsSized : (ops : List Operand) (ext : ℕ) → IsSized (enc_unary ops ext)
unfolding enc_unary
enc_unary-IsSized (reg r ∷ []) ext = rw encoded-reset (
    checked-IsSized (not (valid_integer_width (reg_width_bits r))) (
      if-IsSized (ext == 0 || ext == 1) (encoded-IsSized _ (search emitting depth 12) refl)
        (encoded-IsSized _ (search emitting depth 12) refl)))
enc_unary-IsSized _ ext = error-IsSized

imul_reg-IsSized : (dst src : RegId) → IsSized (imul_reg dst src)
unfolding imul_reg
imul_reg-IsSized dst src = checked-IsSized _ (encoded-IsSized _ (search emitting depth 12) refl)

imul_mem-IsSized : (dst base : RegId) (disp : ℤ) → IsSized (imul_mem dst base disp)
unfolding imul_mem
imul_mem-IsSized dst base disp =
    checked-IsSized _ (encoded-IsSized _ (search emitting depth 12) refl)

imul_imm-IsSized : (dst src : RegId) (v : ℤ) → IsSized (imul_imm dst src v)
unfolding imul_imm
imul_imm-IsSized dst src v = checked-IsSized _ (encoded-IsSized _ (search emitting depth 12) refl)

pub enc_imul-IsSized : (ops : List Operand) → IsSized (enc_imul ops)
unfolding enc_imul
enc_imul-IsSized (reg dst ∷ reg src ∷ []) = imul_reg-IsSized dst src
enc_imul-IsSized (reg dst ∷ mem_reg base ∷ []) = imul_mem-IsSized dst base _
enc_imul-IsSized (reg dst ∷ mem_disp base disp ∷ []) = imul_mem-IsSized dst base _
enc_imul-IsSized (reg dst ∷ reg src ∷ imm v ∷ []) = imul_imm-IsSized dst src v
enc_imul-IsSized _ = error-IsSized

pub enc_divide-IsSized : (ops : List Operand) (ext : ℕ) → IsSized (enc_divide ops ext)
unfolding enc_divide
enc_divide-IsSized (reg r ∷ []) ext =
    checked-IsSized _ (encoded-IsSized _ (search emitting depth 12) refl)
enc_divide-IsSized _ ext = error-IsSized

pub enc_cqo-IsSized : (ops : List Operand) → IsSized (enc_cqo ops)
unfolding enc_cqo
enc_cqo-IsSized [] = encoded-IsSized _ (search emitting depth 12) refl
enc_cqo-IsSized (_ ∷ _) = error-IsSized

shift_imm-IsSized : (r : RegId) (v : ℤ) (ext : ℕ) → IsSized (shift_imm r v ext)
unfolding shift_imm
shift_imm-IsSized r v ext = checked-IsSized _ (encoded-IsSized _ (search emitting depth 12) refl)

shift_reg-IsSized : (r amount : RegId) (ext : ℕ) → IsSized (shift_reg r amount ext)
unfolding shift_reg
shift_reg-IsSized r amount ext =
    checked-IsSized _ (encoded-IsSized _ (search emitting depth 12) refl)

pub enc_shift-IsSized : (ops : List Operand) (ext : ℕ) → IsSized (enc_shift ops ext)
unfolding enc_shift
enc_shift-IsSized (reg r ∷ imm v ∷ []) ext = shift_imm-IsSized r v ext
enc_shift-IsSized (reg r ∷ reg amount ∷ []) ext = shift_reg-IsSized r amount ext
enc_shift-IsSized _ ext = error-IsSized

test_imm-IsSized : (r : RegId) (v : ℤ) → IsSized (test_imm r v)
unfolding test_imm
test_imm-IsSized r v = checked-IsSized _ (encoded-IsSized _ (search emitting depth 12) refl)

test_reg-IsSized : (left right : RegId) → IsSized (test_reg left right)
unfolding test_reg
test_reg-IsSized left right = checked-IsSized _ (encoded-IsSized _ (search emitting depth 12) refl)

pub enc_test-IsSized : (ops : List Operand) → IsSized (enc_test ops)
unfolding enc_test
enc_test-IsSized (reg left ∷ reg right ∷ []) = test_reg-IsSized left right
enc_test-IsSized (reg r ∷ imm v ∷ []) = test_imm-IsSized r v
enc_test-IsSized _ = error-IsSized
