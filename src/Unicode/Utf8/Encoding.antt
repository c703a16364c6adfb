-- ===== src/Unicode/Utf8/Encoding.antt =====
-- UTF-8 as its standard defines it, and what a source holds at an offset.
use nazm.Prelude.{
  ℕ, ◌+◌, ◌/◌, ◌%◌, ◌≤◌, ◌<◌, ◌≡◌, ◌⊎◌, List, [], ◌∷◌, ltb, if◌then◌else◌, length, arith,
}
use nazm.Unicode.Utf8.{byte}

-- A Unicode scalar value: a code point that is no surrogate.
abbrev pub IsScalar : ℕ → Type 0
IsScalar cp = (cp < 0xD800) ⊎ ((0xE000 ≤ cp) × (cp ≤ 0x10_FFFF))

unfoldable pub utf8_encode : ℕ → List ℕ
utf8_encode cp =
    if ltb cp 0x80
    then cp ∷ []
    else if ltb cp 0x800
    then (0xC0 + cp / 64) ∷ (0x80 + cp % 64) ∷ []
    else if ltb cp 0x1_0000
    then (0xE0 + cp / 4096) ∷ (0x80 + cp / 64 % 64) ∷ (0x80 + cp % 64) ∷ []
    else (0xF0 + cp / 26_2144)
      ∷ (0x80 + cp / 4096 % 64)
      ∷ (0x80 + cp / 64 % 64)
      ∷ (0x80 + cp % 64)
      ∷ []

-- The bytes of `src` from `offset` on begin with those of the list.
abbrev pub HoldsAt : List ℕ → ℕ → List ℕ → Type 0
HoldsAt src offset [] = offset ≤ length src
HoldsAt src offset (x ∷ xs) =
    (offset < length src) × (byte src offset ≡ x) × HoldsAt src (offset + 1) xs

-- Every element is a byte.
abbrev pub IsBytes : List ℕ → Type 0
IsBytes [] = Unit
IsBytes (x ∷ xs) = (x < 256) × IsBytes xs

pub byte-lt : (src : List ℕ) (i : ℕ) → IsBytes src → byte src i < 256
byte-lt [] i h = omega arith
byte-lt (x ∷ xs) ℕ.zero h = h.0
byte-lt (x ∷ xs) (ℕ.suc i) h = byte-lt xs i h.1
