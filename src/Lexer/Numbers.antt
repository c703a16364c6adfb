-- ===== src/Lexer/Numbers.antt =====
-- The numbers of lexer/lexer.c: digits of three bases into 64 bits, and the immediate that a
-- literal stands for. A malformed literal is reported when `ok` is false.
pub mod Digits
pub mod Loop
pub mod Immediates
use nazm.Prelude.{
  ℕ, zero, suc, ◌+◌, ◌-◌, ◌*◌, ◌/◌, ◌%◌, ◌^◌, Bool, true, false, ◌&&◌, ◌||◌, not, List, ltb, leb,
  ◌==◌, if◌then◌else◌, length, ℤ, pos, negsuc, ltb_ℤ, pos_part,
}
use nazm.Unicode.Classes.{nazm_is_arabic_digit, arabic_digit_value}
use nazm.Lexer.Cursor.{Cursor, at_end, peek_cp, skip_cp}

abbrev pub uint64_max : ℕ
uint64_max = 0xffff_ffff_ffff_ffff

abbrev pub int64_max : ℕ
int64_max = 0x7fff_ffff_ffff_ffff

unfoldable pub is_number_start : ℕ → Bool
is_number_start cp = leb b'0' cp && leb cp b'9' || nazm_is_arabic_digit cp

unfoldable pub hex_digit_value : ℕ → ℤ
hex_digit_value cp =
    if leb b'0' cp && leb cp b'9'
    then pos (cp - b'0')
    else if leb b'a' cp && leb cp b'f'
    then pos (cp - b'a' + 10)
    else if leb b'A' cp && leb cp b'F'
    then pos (cp - b'A' + 10)
    else negsuc 0

-- The digit of `parse_binary_number`; it stops at anything but 0 and 1.
unfoldable pub binary_digit_value : ℕ → ℤ
binary_digit_value cp = if not (cp == b'0') && not (cp == b'1') then negsuc 0 else pos (cp - b'0')

unfoldable pub decimal_digit_value : ℕ → ℤ
decimal_digit_value cp =
    if leb b'0' cp && leb cp b'9'
    then pos (cp - b'0')
    else if nazm_is_arabic_digit cp
    then arabic_digit_value cp
    else negsuc 0

-- Whether the digit was appended, and `*val` afterwards.
unfoldable pub append_digit : ℕ → ℕ → ℕ → Bool × ℕ
append_digit val base digit =
    if ltb ((uint64_max - digit) / base) val
    then (false, val)
    else (true, (val * base + digit) % 2 ^ 64)

-- The variables of a parsing loop.
pub record Scan : Type 0 where
  pub cursor : Cursor
  pub val : ℕ
  pub got : Bool
  pub fits : Bool

-- The body of a loop, after the test that leaves it.
unfoldable pub take_digit : List ℕ → ℕ → ℕ → Scan → Scan
take_digit src base digit s =
    let (appended, val) = append_digit s.val base digit in
    record {
      cursor = skip_cp src s.cursor;
      val = val;
      got = true;
      fits = if not appended then false else s.fits;
    }

-- The loop, with fuel for every byte that is left.
unfoldable pub digits_loop : ℕ → List ℕ → ℕ → (ℕ → ℤ) → Scan → Scan
digits_loop zero src base digit_value s = s
digits_loop (suc fuel) src base digit_value s =
    let digit = digit_value (peek_cp src s.cursor) in
    let rest = digits_loop fuel src base digit_value (take_digit src base (pos_part digit) s) in
    if at_end src s.cursor || ltb_ℤ digit (pos 0) then s else rest

-- `ok` and `fits` are true before the loop, and `ok` is `got` after it.
unfoldable pub parse_digits : List ℕ → ℕ → (ℕ → ℤ) → Bool → Cursor → Scan
unfolding digits_loop
parse_digits src base digit_value got c =
    digits_loop (length src - c.position) src base digit_value
      (record { cursor = c; val = 0; got = got; fits = true })

unfoldable pub parse_hex_number : List ℕ → Cursor → Scan
parse_hex_number src c = parse_digits src 16 hex_digit_value false c

unfoldable pub parse_binary_number : List ℕ → Cursor → Scan
parse_binary_number src c = parse_digits src 2 binary_digit_value false c

unfoldable pub parse_decimal_number : List ℕ → Bool → Cursor → Scan
parse_decimal_number src already_got_digit c =
    parse_digits src 10 decimal_digit_value already_got_digit c

unfoldable pub parse_number : List ℕ → Cursor → Scan
parse_number src c =
    let after = skip_cp src c in
    let next = peek_cp src after in
    if not (peek_cp src c == b'0')
    then parse_decimal_number src false c
    else if next == b'x' || next == b'X'
    then parse_hex_number src (skip_cp src after)
    else if next == b'b' || next == b'B'
    then parse_binary_number src (skip_cp src after)
    else parse_decimal_number src true after

unfoldable pub as_signed_bits : ℕ → ℤ
as_signed_bits bits = if leb bits int64_max then pos bits else negsuc (uint64_max - bits)

-- What a literal gives: an error, or an immediate token.
pub data Outcome : Type 0 where
  malformed too_large : Outcome
  immediate : ℤ → Outcome

unfoldable pub lex_number : List ℕ → Cursor → Outcome × Cursor
lex_number src c =
    let s = parse_number src c in
    (
      (if not s.fits
          then too_large
          else if s.got
          then immediate (as_signed_bits s.val)
          else malformed),
      s.cursor,
    )

-- `lex_minus_or_negative_number` where a number follows the minus at `c`.
unfoldable pub lex_negative_number : List ℕ → Cursor → Outcome × Cursor
lex_negative_number src c =
    let s = parse_number src (skip_cp src c) in
    (
      (if not s.fits || ltb (int64_max + 1) s.val
          then too_large
          else if s.got
          then immediate (as_signed_bits ((2 ^ 64 - s.val) % 2 ^ 64))
          else malformed),
      s.cursor,
    )
