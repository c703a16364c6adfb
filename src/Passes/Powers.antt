-- ===== src/Passes/Powers.antt =====
-- The boundaries that passes/pass1.c accepts are the powers of two up to 4096, by evaluation of its
-- test at each number, and of two of them the smaller divides the larger.
use native.Mathlib.Nat.{mod-eq_of_lt, mod-lt, mod_self, mul-mod_right}
use nazm.Prelude.{
  ℕ, zero, suc, ◌+◌, ◌-◌, ◌*◌, ◌%◌, ◌/◌, Bool-cases, inl, inr, ltb, ◌^◌, ◌≤◌, ◌<◌, ◌≡◌, refl, true,
  ◌&&◌, ◌||◌, not, List, [], ◌∷◌, none, leb, ◌==◌, if◌then◌else◌, holds_below, holds_below-lt, pos,
  negsuc, arith,
}
use nazm.Encoder.Operands.{Operand, imm}
use nazm.Passes.Data.{power_of_two, validate_alignment, padding}
use nazm.Passes.Sizes.{boundary_of}

-- The exponent of a power of two, from `k` on.
unfoldable exponent : ℕ → ℕ → ℕ → ℕ
exponent zero k v = k
exponent (suc rounds) k v = let later = exponent rounds (k + 1) v in if v == 2 ^ k then k else later

abbrev pub IsPower : ℕ → Type 0
IsPower v = (k : ℕ) × (k ≤ 12) × (v ≡ 2 ^ k)

power_table :
    holds_below
      (λ v. not (power_of_two v) || v == 0 || v == 2 ^ exponent 12 0 v && leb (exponent 12 0 v) 12)
      4097
    ≡ true
unfolding holds_below exponent
power_table = refl

-- The boundary of an accepted directive is a power of two.
pub boundary-IsPower :
    (ops : List Operand) → validate_alignment ops ≡ none → IsPower (boundary_of ops)
unfolding validate_alignment
boundary-IsPower (imm (pos v) ∷ []) h =
    let k = exponent 12 0 v in
    let small : v ≤ 4096 = ground arith in
    let same : v % 2 ^ 64 ≡ v = omega arith in
    let tested : power_of_two (v % 2 ^ 64) ≡ true = ground arith in
    let power : power_of_two v ≡ true = rw same at tested in
    let listed = holds_below-lt _ 4097 v (omega arith) power_table in
    let (below, equal) : (k ≤ 12) × (v ≡ 2 ^ k) = ground arith in (k, below, equal)
boundary-IsPower (imm (negsuc v) ∷ []) h = absurd (ground arith)
boundary-IsPower [] h = absurd (ground arith)
boundary-IsPower (op ∷ p ∷ ops) h = absurd (ground arith)
boundary-IsPower (op ∷ []) h = absurd (ground arith)

divides_table :
    holds_below (λ k. holds_below (λ m. ltb (2 ^ m) (2 ^ k) || 2 ^ m % 2 ^ k == 0) 13) 13 ≡ true
unfolding holds_below
divides_table = refl

-- Of two powers of two, the smaller divides the larger.
pub power-divides : (a b : ℕ) → IsPower a → IsPower b → a ≤ b → b % a ≡ 0
power-divides a b (k, small, e) (m, large, f) h =
    let row = holds_below-lt _ 13 k (omega arith) divides_table in
    let entry = holds_below-lt _ 13 m (omega arith) row in rw (e, f) (ground arith)

-- The padding leads to a multiple of the boundary.
pub padding-multiple :
    (boundary offset : ℕ) → 1 ≤ boundary → (offset + padding boundary offset) % boundary ≡ 0
padding-multiple boundary offset h =
    let r = offset % boundary in
    let q = offset / boundary in
    let split : offset ≡ boundary * q + r = omega arith in
    elim (Bool-cases (r == 0)) [
      | inl none_over ↦
          let zero_left : offset % boundary ≡ 0 = ground arith in
          let same : boundary - 0 ≡ boundary = omega arith in
          let whole : offset + 0 ≡ boundary * q = omega arith in
          rw (zero_left, same, mod_self boundary, whole) (mul-mod_right boundary q)
      | inr some_over ↦
          let positive : 0 < r = ground arith in
          let below = mod-lt offset h in
          let missing : (boundary - r) % boundary ≡ boundary - r = mod-eq_of_lt (omega arith) in
          let whole : offset + (boundary - r) ≡ boundary * suc q = grind arith in
          rw missing (rw whole (mul-mod_right boundary (suc q)))
    ]
