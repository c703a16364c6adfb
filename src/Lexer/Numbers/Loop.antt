-- ===== src/Lexer/Numbers/Loop.antt =====
-- The parsing loops of lexer/lexer.c end within their fuel, and read all the digits at the cursor.
use nazm.Prelude.{
  ℕ, zero, suc, ◌+◌, ◌≤◌, ◌<◌, ◌≡◌, ◌⊎◌, refl, ap, ◌∙◌, Bool, true, false, ◌||◌, List, [], ◌∷◌,
  length, ltb, Bool-cases, inl, inr, ℤ, pos, negsuc, pos_part, ltb_ℤ, arith,
}
use nazm.Unicode.Utf8.{utf8_next_codepoint, utf8_peek_codepoint}
use nazm.Unicode.Utf8.Encoding.{IsBytes}
use nazm.Unicode.Utf8.WellFormed.{next_codepoint_progress}
use nazm.Lexer.Cursor.{Cursor, at_end, peek_cp}
use nazm.Lexer.Numbers.{
  uint64_max, hex_digit_value, binary_digit_value, decimal_digit_value, Scan, take_digit,
  digits_loop, parse_digits, parse_hex_number, parse_binary_number, parse_decimal_number,
}
use nazm.Lexer.Numbers.Digits.{
  HexDigit, BinaryDigit, DecimalDigit, HoldsDigits, source_ends, no_digit, digit, value_after,
  some_digit, IsBase, hex_IsBase, binary_IsBase, decimal_IsBase, skip_cp-position, Reads,
  stop-Reads, take_digit-Reads, digit_bound, digit_position,
}

nonnegative : (v : ℤ) → ltb_ℤ v (pos 0) ≡ false → v ≡ pos (pos_part v)
nonnegative (pos n) h = refl
nonnegative (negsuc n) h = absurd (ground arith)

-- The digits at the cursor, and what the variables hold behind them.
abbrev LoopResult : List ℕ → ℕ → (ℕ → ℕ → Type 0) → Scan → Scan → Type 0
LoopResult src base Digit s end =
    (ds : List ℕ) × HoldsDigits src Digit s.cursor.position ds end.cursor.position
    × Reads base s ds end

module _ (src : List ℕ) (bytes : IsBytes src) (base : ℕ) (digit_value : ℕ → ℤ)
    (Digit : ℕ → ℕ → Type 0) (is_base : IsBase base digit_value Digit) where
  unread :
      (c : Cursor)
      → ltb_ℤ (digit_value (peek_cp src c)) (pos 0) ≡ true
      → (d : ℕ) → ¬ Digit (utf8_peek_codepoint src c.position) d
  unfolding peek_cp
  unread c negative d h = let value = (is_base.reads _ d).1 h in absurd (ground arith)

  loop_stops :
      (s : Scan)
      → s.val ≤ uint64_max
      → at_end src s.cursor || ltb_ℤ (digit_value (peek_cp src s.cursor)) (pos 0) ≡ true
      → LoopResult src base Digit s s
  unfolding at_end peek_cp
  loop_stops s v stop = elim (Bool-cases (at_end src s.cursor)) [
    | inl ended ↦ (
      [],
      source_ends s.cursor.position (ground arith),
      stop-Reads base digit_value Digit is_base s v,
    )
    | inr more ↦ (
      [],
      no_digit s.cursor.position (unread s.cursor (ground arith)),
      stop-Reads base digit_value Digit is_base s v,
    )
  ]

  inside_source :
      (s : Scan) (other : Bool)
      → at_end src s.cursor || other ≡ false
      → s.cursor.position < length src
  unfolding at_end
  inside_source s other h = ground arith

  loop_lem :
      (fuel : ℕ) (s : Scan)
      → s.val ≤ uint64_max
      → length src ≤ fuel + s.cursor.position
      → LoopResult src base Digit s (digits_loop fuel src base digit_value s)
  unfolding digits_loop
  loop_lem zero s v enough = (
    [],
    source_ends s.cursor.position (omega arith),
    stop-Reads base digit_value Digit is_base s v,
  )
  loop_lem (suc fuel) s v enough =
      let here = digit_value (peek_cp src s.cursor) in
      elim (Bool-cases (at_end src s.cursor || ltb_ℤ here (pos 0))) [
        | inl stop ↦ rw stop (loop_stops s v stop)
        | inr more ↦
            let d = pos_part here in
            let value : here ≡ pos d = nonnegative here (ground arith) in
            let below = is_base.below _ d value in
            let next = take_digit src base d s in
            let moved : next.cursor.position ≡ (utf8_next_codepoint src s.cursor.position).1 =
              ap (λ (c : Cursor). c.position)
                (digit_position base digit_value Digit is_base src s d)
              ∙ skip_cp-position src s.cursor in
            let inside : s.cursor.position < length src = inside_source s _ more in
            let progress = (next_codepoint_progress src s.cursor.position bytes inside).0 in
            let (ds, holds, reads) =
              loop_lem fuel next (digit_bound base digit_value Digit is_base src s d below v)
                (omega arith) in
            rw more (
              d ∷ ds,
              digit s.cursor.position d _ ds inside (unfold peek_cp in (is_base.reads _ d).0 value)
                  (rw (← moved) holds),
              take_digit-Reads base digit_value Digit is_base src s d ds _ below reads,
            )
      ]

  parse_digits_lem :
      (got : Bool) (c : Cursor)
      → LoopResult src base Digit
          (record { cursor = c; val = 0; got = got; fits = true })
          (parse_digits src base digit_value got c)
  unfolding parse_digits
  parse_digits_lem got c = loop_lem _ _ (omega arith) (omega arith)

-- The digits at the cursor have been read, `got` says whether there was one or one before, and the
-- value is exact when it has 64 bits, which `fits` decides.
abbrev pub IsRead : List ℕ → ℕ → (ℕ → ℕ → Type 0) → Bool → Cursor → Scan → Type 0
IsRead src base Digit got c end =
    (ds : List ℕ) × HoldsDigits src Digit c.position ds end.cursor.position
    × (end.got ≡ (got || some_digit ds))
    × ((value_after base 0 ds ≤ uint64_max) × (end.fits ≡ true) × (end.val ≡ value_after base 0 ds)
        ⊎ (uint64_max < value_after base 0 ds) × (end.fits ≡ false))

exact_or_lost :
    (base : ℕ) (s : Scan) (ds : List ℕ) (end : Scan)
    → s.fits ≡ true
    → Reads base s ds end
    → ((value_after base s.val ds ≤ uint64_max)
          × (end.fits ≡ true)
          × (end.val ≡ value_after base s.val ds)
        ⊎ (uint64_max < value_after base s.val ds) × (end.fits ≡ false))
exact_or_lost base s ds end f r = elim (Bool-cases (end.fits)) [
  | inl fits ↦ inl ((r.fits.0 fits).1, fits, r.val fits)
  | inr lost ↦ elim (Bool-cases (ltb uint64_max (value_after base s.val ds))) [
    | inl large ↦ inr (ground arith, lost)
    | inr small ↦ let fits = r.fits.1 (f, ground arith) in absurd (ground arith)
  ]
]

is_read :
    (src : List ℕ) (base : ℕ) (Digit : ℕ → ℕ → Type 0) (got : Bool) (c : Cursor) (end : Scan)
    → LoopResult src base Digit (record { cursor = c; val = 0; got = got; fits = true }) end
    → IsRead src base Digit got c end
is_read src base Digit got c end (ds, holds, reads) =
    (ds, holds, reads.got, exact_or_lost base _ ds end refl reads)

-- Over a source of bytes, the loops of the three bases end behind the digits that stand at the
-- cursor, say whether there was a digit, and either compute their value, when 64 bits hold it, or
-- say that it does not fit. The digits are 0 to 9 and the letters a to f or A to F for 10 to 15; 0 and
-- 1; and 0 to 9 of ASCII or Arabic.
pub parse_numbers_lem :
    (src : List ℕ) (c : Cursor) (already_got_digit : Bool)
    → IsBytes src
    → IsRead src 16 HexDigit false c (parse_hex_number src c)
      × IsRead src 2 BinaryDigit false c (parse_binary_number src c)
      × IsRead src 10 DecimalDigit already_got_digit c
          (parse_decimal_number src already_got_digit c)
unfolding parse_hex_number parse_binary_number parse_decimal_number
parse_numbers_lem src c already bytes = (
  is_read src 16 _ false c _
      (parse_digits_lem src bytes 16 hex_digit_value HexDigit hex_IsBase false c),
  is_read src 2 _ false c _
      (parse_digits_lem src bytes 2 binary_digit_value BinaryDigit binary_IsBase false c),
  is_read src 10 _ already c _
      (parse_digits_lem src bytes 10 decimal_digit_value DecimalDigit decimal_IsBase already c),
)
