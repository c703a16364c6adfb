-- ===== src/DebugLine/Leb.antt =====
-- The variable-length numbers of output/debug_line.c, and a reader of them as the DWARF standard defines
-- them. A 64-bit value has at most ten groups of seven bits, so the loops have ten rounds.
use nazm.Prelude.{
  ℕ, zero, suc, ◌+◌, ◌-◌, ◌*◌, ◌/◌, ◌%◌, ◌^◌, ◌<◌, ◌≡◌, Bool, ◌&&◌, ◌||◌, not, List, [], ◌∷◌, ◌++◌,
  Option, none, some, ltb, leb, ◌==◌, if◌then◌else◌, ℤ, pos, negsuc, to_unsigned, shr_ℤ, eq_ℤ,
  Bool-cases, inl, inr, IsI64, arith,
}

-- The loop of `debug_buffer_uleb`.
unfoldable pub uleb_loop : ℕ → ℕ → List ℕ
uleb_loop zero value = []
uleb_loop (suc rounds) value =
    let next = value / 2 ^ 7 in
    let rest = uleb_loop rounds next in
    if next == 0 then value % 2 ^ 7 ∷ [] else (value % 2 ^ 7 + 0x80) ∷ rest

unfoldable pub debug_buffer_uleb : ℕ → List ℕ
unfolding uleb_loop
debug_buffer_uleb value = uleb_loop 10 value

-- The test of `more`, negated, for the shifted value and the sign bit.
abbrev pub is_last : ℤ → Bool → Bool
is_last value sign = eq_ℤ value (pos 0) && not sign || eq_ℤ value (negsuc 0) && sign

-- The loop of `debug_buffer_sleb`.
unfoldable pub sleb_loop : ℕ → ℤ → List ℕ
sleb_loop zero value = []
sleb_loop (suc rounds) value =
    let byte = to_unsigned 7 value in
    let next = shr_ℤ value 7 in
    let rest = sleb_loop rounds next in
    if is_last next (leb 0x40 byte) then byte ∷ [] else (byte + 0x80) ∷ rest

unfoldable pub debug_buffer_sleb : ℤ → List ℕ
unfolding sleb_loop
debug_buffer_sleb value = sleb_loop 10 value

abbrev with_group : ℕ → Option (ℕ × List ℕ) → Option (ℕ × List ℕ)
with_group low none = none
with_group low (some (n, rest)) = some (low + 128 * n, rest)

unfoldable pub read_uleb : List ℕ → Option (ℕ × List ℕ)
read_uleb [] = none
read_uleb (b ∷ rest) =
    let higher = read_uleb rest in if ltb b 128 then some (b, rest) else with_group (b - 128) higher

-- A last group in two's complement, and a group below a value.
abbrev signed_group : ℕ → ℤ
signed_group b = if ltb b 64 then pos b else negsuc (127 - b)

abbrev below : ℕ → ℤ → ℤ
below low (pos n) = pos (low + 128 * n)
below low (negsuc n) = negsuc (128 * n + (127 - low))

abbrev with_signed_group : ℕ → Option (ℤ × List ℕ) → Option (ℤ × List ℕ)
with_signed_group low none = none
with_signed_group low (some (v, rest)) = some (below low v, rest)

unfoldable pub read_sleb : List ℕ → Option (ℤ × List ℕ)
read_sleb [] = none
read_sleb (b ∷ rest) =
    let higher = read_sleb rest in
    if ltb b 128 then some (signed_group b, rest) else with_signed_group (b - 128) higher

-- The values of a number of groups.
abbrev limit : ℕ → ℕ
limit zero = 1
limit (suc groups) = 128 * limit groups

uleb_loop-read :
    (rounds value : ℕ) (rest : List ℕ)
    → value < limit (suc rounds)
    → read_uleb (uleb_loop (suc rounds) value ++ rest) ≡ some (value, rest)
unfolding uleb_loop read_uleb
uleb_loop-read zero value rest h = ground arith
uleb_loop-read (suc rounds) value rest h = elim (Bool-cases (value / 2 ^ 7 == 0)) [
  | inl e ↦ rw e (ground arith)
  | inr e ↦
      let later = uleb_loop-read rounds (value / 2 ^ 7) rest (omega arith) in
      rw (e, later) (ground arith)
]

pub read_uleb-debug_buffer_uleb :
    (value : ℕ) (rest : List ℕ)
    → value < 2 ^ 64
    → read_uleb (debug_buffer_uleb value ++ rest) ≡ some (value, rest)
unfolding debug_buffer_uleb
read_uleb-debug_buffer_uleb value rest h = uleb_loop-read 9 value rest (omega arith)

abbrev Within : ℕ → ℤ → Type 0
Within groups (pos n) = n < 64 * limit groups
Within groups (negsuc n) = n < 64 * limit groups

sleb_loop-read :
    (rounds : ℕ) (value : ℤ) (rest : List ℕ)
    → Within rounds value
    → read_sleb (sleb_loop (suc rounds) value ++ rest) ≡ some (value, rest)
unfolding sleb_loop read_sleb
sleb_loop-read zero (pos n) rest h = ground arith
sleb_loop-read zero (negsuc n) rest h = ground arith
sleb_loop-read (suc rounds) (pos n) rest h =
    let later = sleb_loop-read rounds (pos (n / 2 ^ 7)) rest (omega arith) in
    elim (Bool-cases (is_last (pos (n / 2 ^ 7)) (leb 0x40 (to_unsigned 7 (pos n))))) [
      | inl e ↦ rw e (ground arith)
      | inr e ↦ rw (e, later) (ground arith)
    ]
sleb_loop-read (suc rounds) (negsuc n) rest h =
    let later = sleb_loop-read rounds (negsuc (n / 2 ^ 7)) rest (omega arith) in
    elim (Bool-cases (is_last (negsuc (n / 2 ^ 7)) (leb 0x40 (to_unsigned 7 (negsuc n))))) [
      | inl e ↦ rw e (ground arith)
      | inr e ↦ rw (e, later) (ground arith)
    ]

pub read_sleb-debug_buffer_sleb :
    (value : ℤ) (rest : List ℕ)
    → IsI64 value
    → read_sleb (debug_buffer_sleb value ++ rest) ≡ some (value, rest)
unfolding debug_buffer_sleb
read_sleb-debug_buffer_sleb (pos n) rest h = sleb_loop-read 9 (pos n) rest (omega arith)
read_sleb-debug_buffer_sleb (negsuc n) rest h = sleb_loop-read 9 (negsuc n) rest (omega arith)
