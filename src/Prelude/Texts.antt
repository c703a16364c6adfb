-- ===== src/Prelude/Texts.antt =====
-- C strings and `len` bytes of a text, as lists of bytes.
use Prim.Native.Nat.{ℕ}
use mathlib.Core.Path.{◌≡◌, refl, sym, ap, ◌∙◌}
use mathlib.Core.Logic.{inl, inr}
use mathlib.Core.Bool.{Bool, true, false, ◌&&◌}
use mathlib.Core.List.{List, [], ◌∷◌}
use native.Mathlib.Omega.{arith}
use nazm.Prelude.Tests.{◌==◌, Bool-cases}

-- `strcmp(a, b) == 0`, and `memcmp(a, b, len) == 0` for two texts of `len` bytes.
unfoldable pub same_bytes : List ℕ → List ℕ → Bool
same_bytes [] [] = true
same_bytes [] (y ∷ ys) = false
same_bytes (x ∷ xs) [] = false
same_bytes (x ∷ xs) (y ∷ ys) = x == y && same_bytes xs ys

pub same_bytes-≡ : (a b : List ℕ) → same_bytes a b ≡ true → a ≡ b
unfolding same_bytes
same_bytes-≡ [] [] h = refl
same_bytes-≡ [] (y ∷ ys) h = absurd (ground arith)
same_bytes-≡ (x ∷ xs) [] h = absurd (ground arith)
same_bytes-≡ (x ∷ xs) (y ∷ ys) h = ground (arith, same_bytes-≡ xs ys)

pub same_bytes_refl : (a : List ℕ) → same_bytes a a ≡ true
unfolding same_bytes
same_bytes_refl [] = refl
same_bytes_refl (x ∷ xs) = ground (arith, same_bytes_refl xs)

pub same_bytes-away : (a b : List ℕ) → same_bytes a b ≡ false → same_bytes b a ≡ false
same_bytes-away a b h = elim (Bool-cases (same_bytes b a)) [
  | inl same ↦
      let refused : same_bytes a a ≡ false = ap (same_bytes a) (sym (same_bytes-≡ b a same)) ∙ h in
      let accepted = same_bytes_refl a in absurd (ground arith)
  | inr away ↦ away
]
