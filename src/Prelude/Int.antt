-- ===== src/Prelude/Int.antt =====
-- The signed integers of C: `int64_t` and `int32_t` values, their comparisons, the arithmetic
-- right shift and the conversions between widths.
use Prim.Native.Nat.{ℕ, suc, ◌+◌, ◌-◌, ◌/◌, ◌%◌, ◌^◌, ◌≤◌}
use mathlib.Core.Bool.{Bool}
use nazm.Prelude.Tests.{ltb, leb, ◌==◌, if◌then◌else◌}

-- `negsuc n` is -(n + 1).
pub data ℤ : Type 0 where
  pos : ℕ → ℤ
  negsuc : ℕ → ℤ

abbrev pub pos_part : ℤ → ℕ
pos_part (pos n) = n
pos_part (negsuc n) = 0

abbrev pub neg_part : ℤ → ℕ
neg_part (pos n) = 0
neg_part (negsuc n) = suc n

infix 50 ◌≤ℤ◌
abbrev pub ◌≤ℤ◌ : ℤ → ℤ → Type 0
a ≤ℤ b = pos_part a + neg_part b ≤ pos_part b + neg_part a

abbrev pub leb_ℤ : ℤ → ℤ → Bool
leb_ℤ a b = leb (pos_part a + neg_part b) (pos_part b + neg_part a)

abbrev pub ltb_ℤ : ℤ → ℤ → Bool
ltb_ℤ a b = ltb (pos_part a + neg_part b) (pos_part b + neg_part a)

-- The conversion to an unsigned type of `w` bits: the value modulo 2 ^ w.
abbrev pub to_unsigned : ℕ → ℤ → ℕ
to_unsigned w (pos n) = n % 2 ^ w
to_unsigned w (negsuc n) = 2 ^ w - 1 - n % 2 ^ w

-- The two's complement reading of `w` bits.
abbrev pub of_bits : ℕ → ℕ → ℤ
of_bits w n = if ltb n (2 ^ (w - 1)) then pos n else negsuc (2 ^ w - 1 - n)

-- `(uint8_t)v`.
abbrev pub to_u8 : ℤ → ℕ
to_u8 = to_unsigned 8

-- `(int32_t)v`, as the supported compilers define it: the low 32 bits, read in two's complement.
abbrev pub to_i32 : ℤ → ℤ
to_i32 v = of_bits 32 (to_unsigned 32 v)

-- `v >> k`, the arithmetic shift of the supported compilers.
abbrev pub shr_ℤ : ℤ → ℕ → ℤ
shr_ℤ (pos n) k = pos (n / 2 ^ k)
shr_ℤ (negsuc n) k = negsuc (n / 2 ^ k)

-- The ranges of the C types.
abbrev pub IsI8 : ℤ → Type 0
IsI8 v = (negsuc 127 ≤ℤ v) × (v ≤ℤ pos 127)

abbrev pub IsI32 : ℤ → Type 0
IsI32 v = (negsuc 0x7fff_ffff ≤ℤ v) × (v ≤ℤ pos 0x7fff_ffff)

abbrev pub IsI64 : ℤ → Type 0
IsI64 v = (negsuc 0x7fff_ffff_ffff_ffff ≤ℤ v) × (v ≤ℤ pos 0x7fff_ffff_ffff_ffff)

abbrev pub eq_ℤ : ℤ → ℤ → Bool
eq_ℤ a b = pos_part a + neg_part b == pos_part b + neg_part a

-- The integer `m - n`.
abbrev pub difference : ℕ → ℕ → ℤ
difference m n = if leb n m then pos (m - n) else negsuc (n - m - 1)

infixl 60 ◌-ℤ◌
abbrev pub ◌-ℤ◌ : ℤ → ℤ → ℤ
a -ℤ b = difference (pos_part a + neg_part b) (pos_part b + neg_part a)
