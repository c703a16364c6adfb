-- ===== src/Encoder/Shape.antt =====
-- Encodings of the same length: the `/digit` of a shift is in ModRM, and changes no length.
use nazm.Prelude.{
  ℕ, ◌≡◌, refl, Bool, true, false, List, [], ◌∷◌, length, length-append, if◌then◌else◌, ℤ, arith,
}
use nazm.Encoder.Registers.{RegId}
use nazm.Encoder.Operands.{Operand, reg, imm}
use nazm.Encoder.Emit.{
  Buf, Emit, ◌>>◌, emit, skip, EncodedInstruction, make_error, encoded, emit_width_prefix,
  emit_rex_for_width,
}
use nazm.Encoder.Emit.Helpers.{emit_width_prefix_lem, emit_rex_for_width_lem}
use nazm.Encoder.Arith.{enc_shift, shift_imm, shift_reg}

-- From buffers of one length, `f` and `g` give buffers of one length.
record SameLength (f g : Emit) : Type 0 where
  apply : (b c : Buf) → length b ≡ length c → length (f b) ≡ length (g c)

length-emit : (x y : ℕ) (b c : Buf) → length b ≡ length c → length (emit x b) ≡ length (emit y c)
unfolding emit
length-emit x y b c h = ground (arith, length-append b (x ∷ []), length-append c (y ∷ []))

emit-SameLength : (x y : ℕ) → SameLength (emit x) (emit y)
emit-SameLength x y = record { apply = length-emit x y }

skip-SameLength : SameLength skip skip
unfolding skip
skip-SameLength = record { apply = λ b c h. h }

seq-SameLength : (f g h k : Emit) → SameLength f h → SameLength g k → SameLength (f >> g) (h >> k)
unfolding ◌>>◌
seq-SameLength f g h k p q = record { apply = λ b c e. q.apply (f b) (h c) (p.apply b c e) }

if-SameLength :
    (t : Bool) (f g h k : Emit)
    → SameLength f h
    → SameLength g k
    → SameLength (if t then f else g) (if t then h else k)
if-SameLength true f g h k p q = p
if-SameLength false f g h k p q = q

width_prefix-SameLength :
    (width : ℕ) → SameLength (emit_width_prefix width) (emit_width_prefix width)
width_prefix-SameLength width =
    rw emit_width_prefix_lem (if-SameLength _ _ _ _ _ (emit-SameLength _ _) skip-SameLength)

rex_for_width-SameLength :
    (width : ℕ) (r rm : RegId)
    → SameLength (emit_rex_for_width width r rm) (emit_rex_for_width width r rm)
rex_for_width-SameLength width r rm =
    rw emit_rex_for_width_lem (if-SameLength _ _ _ _ _ (emit-SameLength _ _) skip-SameLength)

ruleset lengths = (
  emit-SameLength, skip-SameLength, seq-SameLength, if-SameLength, width_prefix-SameLength,
  rex_for_width-SameLength,
)

-- Both fail, or both succeed with one length.
pub record SameShape (x y : EncodedInstruction) : Type 0 where
  pub errors : x.error ≡ y.error
  pub lens : x.len ≡ y.len

same : (x : EncodedInstruction) → SameShape x x
same x = record { errors = refl; lens = refl }

checked-SameShape :
    (t : Bool) (x y : EncodedInstruction)
    → SameShape x y
    → SameShape (if t then make_error else x) (if t then make_error else y)
checked-SameShape true x y p = same make_error
checked-SameShape false x y p = p

encoded-SameShape : (f g : Emit) → SameLength f g → SameShape (encoded f) (encoded g)
unfolding encoded
encoded-SameShape f g p = record { errors = refl; lens = p.apply [] [] refl }

shift_imm-SameShape :
    (r : RegId) (v : ℤ) (ext : ℕ) → SameShape (shift_imm r v 4) (shift_imm r v ext)
unfolding shift_imm
shift_imm-SameShape r v ext =
    checked-SameShape _ _ _ (encoded-SameShape _ _ (search lengths depth 12))

shift_reg-SameShape :
    (r amount : RegId) (ext : ℕ) → SameShape (shift_reg r amount 4) (shift_reg r amount ext)
unfolding shift_reg
shift_reg-SameShape r amount ext =
    checked-SameShape _ _ _ (encoded-SameShape _ _ (search lengths depth 12))

pub enc_shift-SameShape :
    (ops : List Operand) (ext : ℕ) → SameShape (enc_shift ops 4) (enc_shift ops ext)
unfolding enc_shift
enc_shift-SameShape (reg r ∷ imm v ∷ []) ext = shift_imm-SameShape r v ext
enc_shift-SameShape (reg r ∷ reg amount ∷ []) ext = shift_reg-SameShape r amount ext
enc_shift-SameShape _ ext = same make_error
