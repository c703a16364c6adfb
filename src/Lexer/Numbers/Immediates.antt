-- ===== src/Lexer/Numbers/Immediates.antt =====
-- The immediates of lexer/lexer.c: a literal gives the value of its digits as 64 bits, a negative
-- literal its negation, and whatever does not fit is refused.
use nazm.Prelude.{
  ℕ, zero, suc, ◌+◌, ◌-◌, ◌%◌, ◌^◌, ◌≤◌, ◌<◌, ◌≡◌, ◌≢◌, ◌⊎◌, refl, Bool, true, false, not, ◌||◌,
  List, ltb, ◌==◌, if◌then◌else◌, Bool-cases, inl, inr, ℤ, pos, negsuc, of_bits, arith,
}
use nazm.Unicode.Utf8.Encoding.{IsBytes}
use nazm.Lexer.Cursor.{Cursor, peek_cp, skip_cp}
use nazm.Lexer.Numbers.{
  uint64_max, int64_max, Scan, parse_number, as_signed_bits, Outcome, malformed, too_large,
  immediate, lex_number, lex_negative_number,
}
use nazm.Lexer.Numbers.Digits.{
  HexDigit, BinaryDigit, DecimalDigit, HoldsDigits, value_after, some_digit,
}
use nazm.Lexer.Numbers.Loop.{parse_numbers_lem}

-- Behind a zero, the letter of no other base.
abbrev pub NoPrefix : ℕ → Type 0
NoPrefix cp = (cp ≢ b'x') × (cp ≢ b'X') × (cp ≢ b'b') × (cp ≢ b'B')

-- The literal at the cursor: whether it has a digit, its value, and where it ends.
pub data HoldsLiteral (src : List ℕ) (c : Cursor) : Bool → ℕ → ℕ → Type 0 where
  decimal :
      (ds : List ℕ) (end : ℕ)
      → (peek_cp src c == b'0') ≡ false
      → HoldsDigits src DecimalDigit c.position ds end
      → HoldsLiteral src c (some_digit ds) (value_after 10 0 ds) end
  leading_zero :
      (ds : List ℕ) (end : ℕ)
      → (peek_cp src c == b'0') ≡ true
      → NoPrefix (peek_cp src (skip_cp src c))
      → HoldsDigits src DecimalDigit (skip_cp src c).position ds end
      → HoldsLiteral src c true (value_after 10 0 ds) end
  hexadecimal :
      (ds : List ℕ) (end : ℕ)
      → (peek_cp src c == b'0') ≡ true
      → (peek_cp src (skip_cp src c) ≡ b'x') ⊎ (peek_cp src (skip_cp src c) ≡ b'X')
      → HoldsDigits src HexDigit (skip_cp src (skip_cp src c)).position ds end
      → HoldsLiteral src c (some_digit ds) (value_after 16 0 ds) end
  binary :
      (ds : List ℕ) (end : ℕ)
      → (peek_cp src c == b'0') ≡ true
      → (peek_cp src (skip_cp src c) ≡ b'b') ⊎ (peek_cp src (skip_cp src c) ≡ b'B')
      → HoldsDigits src BinaryDigit (skip_cp src (skip_cp src c)).position ds end
      → HoldsLiteral src c (some_digit ds) (value_after 2 0 ds) end

-- What the variables hold behind a literal.
abbrev IsScanned : List ℕ → Cursor → Scan → Type 0
IsScanned src c s =
    (any : Bool) × (n : ℕ) × HoldsLiteral src c any n s.cursor.position
    × (s.got ≡ any)
    × ((n ≤ uint64_max) × (s.fits ≡ true) × (s.val ≡ n) ⊎ (uint64_max < n) × (s.fits ≡ false))

either : (a b c : ℕ) → (a == b || a == c) ≡ true → (a ≡ b) ⊎ (a ≡ c)
either a b c h = ground arith

no_prefix :
    (cp : ℕ) → (cp == b'x' || cp == b'X') ≡ false → (cp == b'b' || cp == b'B') ≡ false → NoPrefix cp
no_prefix cp x b = ground arith

module _ (src : List ℕ) (c : Cursor) (bytes : IsBytes src) where
  parse_number-IsScanned : IsScanned src c (parse_number src c)
  unfolding parse_number
  parse_number-IsScanned =
      let after = skip_cp src c in
      let next = peek_cp src after in
      elim (Bool-cases (peek_cp src c == b'0')) [
        | inr other ↦
            let (ds, holds, got, outcome) = (parse_numbers_lem src c false bytes).2 in
            rw other (some_digit ds, value_after 10 0 ds, decimal ds _ other holds, got, outcome)
        | inl zero_first ↦ elim (Bool-cases (next == b'x' || next == b'X')) [
          | inl x ↦
              let (ds, holds, got, outcome) =
                (parse_numbers_lem src (skip_cp src after) false bytes).0 in
              rw (zero_first, x)
                (
                  some_digit ds,
                  value_after 16 0 ds,
                  hexadecimal ds _ zero_first (either next _ _ x) holds,
                  got,
                  outcome,
                )
          | inr not_x ↦ elim (Bool-cases (next == b'b' || next == b'B')) [
            | inl b ↦
                let (ds, holds, got, outcome) =
                  (parse_numbers_lem src (skip_cp src after) false bytes).1 in
                rw (zero_first, not_x, b)
                  (
                    some_digit ds,
                    value_after 2 0 ds,
                    binary ds _ zero_first (either next _ _ b) holds,
                    got,
                    outcome,
                  )
            | inr not_b ↦
                let (ds, holds, got, outcome) = (parse_numbers_lem src after true bytes).2 in
                rw (zero_first, not_x, not_b)
                  (
                    true,
                    value_after 10 0 ds,
                    leading_zero ds _ zero_first (no_prefix next not_x not_b) holds,
                    got,
                    outcome,
                  )
          ]
        ]
      ]

-- The immediate of a literal with the value `n`: its 64 bits, read as a signed number.
unfoldable pub literal_outcome : Bool → ℕ → Outcome
literal_outcome any n =
    if ltb uint64_max n then too_large else if any then immediate (of_bits 64 n) else malformed

abbrev negated : ℕ → ℤ
negated zero = pos 0
negated (suc n) = negsuc n

-- The immediate of a minus and a literal: the negated value, down to the least signed number.
unfoldable pub negative_outcome : Bool → ℕ → Outcome
negative_outcome any n =
    if ltb (int64_max + 1) n then too_large else if any then immediate (negated n) else malformed

as_signed_bits-of_bits : (n : ℕ) → n ≤ uint64_max → as_signed_bits n ≡ of_bits 64 n
unfolding as_signed_bits
as_signed_bits-of_bits n h = ground arith

as_signed_bits-negated :
    (n : ℕ) → n ≤ int64_max + 1 → as_signed_bits ((2 ^ 64 - n) % 2 ^ 64) ≡ negated n
unfolding as_signed_bits
as_signed_bits-negated zero h = refl
as_signed_bits-negated (suc n) h = ground arith

ltb_above : (n m : ℕ) → n ≤ m → ltb m n ≡ false
ltb_above n m h = ground arith

ltb_below : (m n : ℕ) → m < n → ltb m n ≡ true
ltb_below m n h = ground arith

module _ (s : Scan) where
  lexed :
      (any : Bool) (n : ℕ)
      → (s.got ≡ any)
      → ((n ≤ uint64_max) × (s.fits ≡ true) × (s.val ≡ n) ⊎ (uint64_max < n) × (s.fits ≡ false))
      → (if not s.fits
          then too_large
          else if s.got
          then immediate (as_signed_bits s.val)
          else malformed)
        ≡ literal_outcome any n
  unfolding literal_outcome
  lexed any n got (inl (small, fits, val)) =
      rw (fits, got, val, as_signed_bits-of_bits n small, ltb_above n uint64_max small) refl
  lexed any n got (inr (large, lost)) = rw (lost, ltb_below uint64_max n large) refl

  lexed_negative :
      (any : Bool) (n : ℕ)
      → (s.got ≡ any)
      → ((n ≤ uint64_max) × (s.fits ≡ true) × (s.val ≡ n) ⊎ (uint64_max < n) × (s.fits ≡ false))
      → (if not s.fits || ltb (int64_max + 1) s.val
          then too_large
          else if s.got
          then immediate (as_signed_bits ((2 ^ 64 - s.val) % 2 ^ 64))
          else malformed)
        ≡ negative_outcome any n
  unfolding negative_outcome
  lexed_negative any n got (inl (small, fits, val)) = elim (Bool-cases (ltb (int64_max + 1) n)) [
    | inl large ↦ rw (fits, val, large) refl
    | inr held ↦ rw (fits, val, held, got, as_signed_bits-negated n (ground arith)) refl
  ]
  lexed_negative any n got (inr (large, lost)) =
      rw (lost, ltb_below (int64_max + 1) n (omega arith)) refl

-- Over a source of bytes, `lex_number` reads the literal at the cursor to its end, and gives its
-- outcome; `lex_negative_number` does so with the literal behind the minus, and gives the outcome of
-- the negated value. A literal is hexadecimal behind 0x or 0X, binary behind 0b or 0B, and decimal
-- otherwise, of ASCII and Arabic digits.
pub lex_numbers_lem :
    (src : List ℕ) (c : Cursor)
    → IsBytes src
    → ((any : Bool) × (n : ℕ) × HoldsLiteral src c any n (lex_number src c).1.position
        × ((lex_number src c).0 ≡ literal_outcome any n))
      × ((any : Bool) × (n : ℕ) × HoldsLiteral src
            (skip_cp src c)
            any
            n
            (lex_negative_number src c).1.position
          × ((lex_negative_number src c).0 ≡ negative_outcome any n))
unfolding lex_number lex_negative_number
lex_numbers_lem src c bytes =
    let (any, n, holds, got, value) = parse_number-IsScanned src c bytes in
    let (any', n', holds', got', value') = parse_number-IsScanned src (skip_cp src c) bytes in
    (
      (any, n, holds, lexed (parse_number src c) any n got value),
      (any', n', holds', lexed_negative (parse_number src (skip_cp src c)) any' n' got' value'),
    )
