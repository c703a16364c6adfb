-- ===== src/Prelude/Bits.antt =====
-- Masks and disjoint fields as arithmetic.
use Prim.Native.Nat.{
  ℕ, zero, suc, ◌+◌, ◌*◌, ◌/◌, ◌%◌, ◌^◌, ◌≤◌, ◌<◌, max, bit_and, bit_or, digits, bit_or-bitwise,
}
use mathlib.Core.Path.{◌≡◌, refl, ap}
use mathlib.Core.Bool.{true, ◌&&◌}
use native.Mathlib.Nat.{pow-suc}
use native.Mathlib.Omega.{arith}
use nazm.Prelude.Tests.{◌==◌, ==_iff, holds_below, holds_below-lt}

-- `bit_or` works digit by digit, with any fuel that its first argument allows.
abbrev or_from : ℕ → ℕ → ℕ → ℕ
or_from = digits (λ b. b) max

or_from_zero : (k b : ℕ) → or_from k 0 b ≡ b
or_from_zero zero b = refl
or_from_zero (suc k) b = refl

same_fuel : (k m a b : ℕ) → a ≤ k → a ≤ m → or_from k a b ≡ or_from m a b
same_fuel k m zero b h g = omega (arith, or_from_zero k b, or_from_zero m b)
same_fuel zero m (suc a) b h g = absurd (omega arith)
same_fuel (suc k) zero (suc a) b h g = absurd (omega arith)
same_fuel (suc k) (suc m) (suc a) b h g =
    omega (arith, same_fuel k m (suc a / 2) (b / 2) (omega arith) (omega arith))

-- The lowest digit, and the rest.
pub bit_or_digit : (a b : ℕ) → bit_or a b ≡ bit_or (a / 2) (b / 2) * 2 + max (a % 2) (b % 2)
bit_or_digit zero b = omega (arith, bit_or-bitwise 0 b, bit_or-bitwise 0 (b / 2))
bit_or_digit (suc a) b =
    let half : ℕ = suc a / 2 in
    omega (
      arith,
      bit_or-bitwise (suc a) b,
      bit_or-bitwise half (b / 2),
      same_fuel a half half (b / 2) (omega arith) (omega arith),
    )

bit_or-zero : (k a : ℕ) → a ≤ k → bit_or a 0 ≡ a
bit_or-zero k zero h = refl
bit_or-zero zero (suc a) h = absurd (omega arith)
bit_or-zero (suc k) (suc a) h =
    omega (arith, bit_or_digit (suc a) 0, bit_or-zero k (suc a / 2) (omega arith))

bit_or-double : (a r : ℕ) → bit_or (a * 2) r ≡ bit_or a (r / 2) * 2 + r % 2
bit_or-double a r =
    let halved : a * 2 / 2 ≡ a = omega arith in
    omega (arith, bit_or_digit (a * 2) r, ap (λ (t : ℕ). bit_or t (r / 2)) halved)

-- A field of `k` bits below `q`: `(q << k) | r`.
bit_or-shift : (k q r : ℕ) → r < 2 ^ k → bit_or (q * 2 ^ k) r ≡ q * 2 ^ k + r
bit_or-shift zero q r h = ground (arith, bit_or-zero q q)
bit_or-shift (suc k) q r h =
    let one_more : q * 2 ^ suc k ≡ q * 2 ^ k * 2 =
      omega (arith, ap (λ (t : ℕ). q * t) (pow-suc 2 k)) in
    rw one_more (
      omega
        (arith, bit_or-double (q * 2 ^ k) r, bit_or-shift k q (r / 2) (omega (arith, pow-suc 2 k))))

pub bit_or-shift_six : (q r : ℕ) → r < 64 → bit_or (q * 64) r ≡ q * 64 + r
bit_or-shift_six = bit_or-shift 6

-- The masks of one byte.
low_table : holds_below (λ b. bit_and b 0x3F == b % 64) 256 ≡ true
unfolding holds_below
low_table = refl

pub bit_and-low_six : (b : ℕ) → b < 256 → bit_and b 0x3F ≡ b % 64
bit_and-low_six b h = (==_iff _ _).0 (holds_below-lt _ 256 b h low_table)

lead_table :
    holds_below
      (λ b. bit_and b 0x1F == b % 32 && bit_and b 0x0F == b % 16 && bit_and b 0x07 == b % 8)
      256
    ≡ true
unfolding holds_below
lead_table = refl

pub bit_and-lead :
    (b : ℕ)
    → b < 256
    → (bit_and b 0x1F ≡ b % 32) × (bit_and b 0x0F ≡ b % 16) × (bit_and b 0x07 ≡ b % 8)
bit_and-lead b h = ground (arith, holds_below-lt _ 256 b h lead_table)

top_table : holds_below (λ b. bit_and b 0xC0 == b / 64 * 64) 256 ≡ true
unfolding holds_below
top_table = refl

pub bit_and-top_two : (b : ℕ) → b < 256 → bit_and b 0xC0 ≡ b / 64 * 64
bit_and-top_two b h = (==_iff _ _).0 (holds_below-lt _ 256 b h top_table)
