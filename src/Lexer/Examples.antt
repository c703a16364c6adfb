-- ===== src/Lexer/Examples.antt =====
-- The keyword theorems at the mnemonic of MOV and at its spelling of an earlier release, and the
-- number theorems at a source with a negative literal.
use nazm.Prelude.{
  sym, ◌∙◌, ℕ, ◌+◌, pos, negsuc, Bool, ◌≡◌, ◌≢◌, ◌↔◌, refl, true, false, none, some, get_elem?,
  List, [], ◌∷◌, same_bytes, arith,
}
use nazm.Unicode.Utf8.{
  utf8_next_codepoint, utf8_peek_codepoint, sequence, continuation_loop, minimum,
}
use nazm.Unicode.Classes.{is_ident_continue, nazm_is_arabic_digit, arabic_digit_value}
use nazm.Lexer.Cursor.{Cursor, at_end, peek_cp, skip_cp}
use nazm.Lexer.Numbers.{
  hex_digit_value, binary_digit_value, decimal_digit_value, append_digit, take_digit, digits_loop,
  parse_digits, parse_hex_number, parse_binary_number, parse_decimal_number, parse_number,
  as_signed_bits, Outcome, immediate, lex_number, lex_negative_number,
}
use nazm.Lexer.Numbers.Digits.{HexDigit, BinaryDigit, DecimalDigit}
use nazm.Lexer.Numbers.Loop.{IsRead, parse_numbers_lem}
use nazm.Lexer.Numbers.Immediates.{HoldsLiteral, literal_outcome, negative_outcome, lex_numbers_lem}
use nazm.Encoder.Registers.{reg_xmm15, reg_width_bits}
use nazm.Lexer.Identifiers.{scan_ident, scan_directive}
use nazm.Lexer.Identifiers.Runs.{HoldsRun, scans-HoldsRun}
use nazm.Lexer.Identifiers.Words.{source_start, IsWord, keyword-IsWord, register-IsWord}
use nazm.Lexer.Registers.{
  classify_register, has_reserved_register_prefix, lexer_register_legacy_replacement,
}
use nazm.Lexer.Registers.Tables.{reg_table, legacy_registers}
use nazm.Lexer.Registers.Names.{
  classify_register_iff, register_names_apart, register_named, legacy_register_lem,
}
use nazm.Encoder.Opcodes.{mov, invalid}
use nazm.Lexer.Keywords.{keywords_lookup, keywords_legacy_replacement}
use nazm.Lexer.Keywords.Tables.{keyword_table, legacy_keywords}
use nazm.Lexer.Search.{spells, find_spelling, IsEntry}
use nazm.Lexer.Keywords.Lookup.{keywords_lookup_iff, legacy_replacement_lem}

abbrev move : List ℕ
move = 0xD8 ∷ 0xA7 ∷ 0xD9 ∷ 0x86 ∷ 0xD9 ∷ 0x82 ∷ 0xD9 ∷ 0x84 ∷ []

abbrev old_move : List ℕ
old_move = 0xD8 ∷ 0xA7 ∷ 0xD8 ∷ 0xAD ∷ 0xD9 ∷ 0x85 ∷ 0xD9 ∷ 0x84 ∷ []

lookup_move : keywords_lookup move ≡ mov
unfolding keywords_lookup find_spelling keyword_table spells same_bytes
lookup_move = refl

mov_valid : mov ≢ invalid
mov_valid e = absurd (ground arith)

keywords_lookup_iff_example : (keywords_lookup move ≡ mov) ↔ IsEntry keyword_table move mov
keywords_lookup_iff_example = keywords_lookup_iff move mov mov_valid

legacy_replacement_lem_example :
    (keywords_lookup old_move ≡ invalid) × (keywords_lookup move ≢ invalid)
unfolding keywords_legacy_replacement legacy_keywords find_spelling spells same_bytes
legacy_replacement_lem_example = legacy_replacement_lem old_move move refl

-- -0x7F and an Arabic digit behind a space.
abbrev numbers : List ℕ
numbers = b'-' ∷ b'0' ∷ b'x' ∷ b'7' ∷ b'F' ∷ b' ' ∷ 0xD9 ∷ 0xA3 ∷ []

abbrev at : ℕ → Cursor
at i = record { position = i; line = 1; col = i + 1 }

negative : Outcome × Cursor
unfolding lex_negative_number parse_number parse_decimal_number parse_hex_number parse_binary_number
    parse_digits digits_loop take_digit append_digit hex_digit_value decimal_digit_value
    binary_digit_value as_signed_bits peek_cp skip_cp at_end utf8_peek_codepoint utf8_next_codepoint
    sequence continuation_loop minimum nazm_is_arabic_digit arabic_digit_value
negative = lex_negative_number numbers (at 0)

negative_lem : negative.0 ≡ immediate (negsuc 126)
unfolding negative
negative_lem = refl

arabic : Outcome × Cursor
unfolding negative lex_number
arabic = lex_number numbers (at 6)

arabic_lem : arabic.0 ≡ immediate (pos 3)
unfolding arabic
arabic_lem = refl

parse_numbers_lem_example :
    IsRead numbers 16 HexDigit false (at 3) (parse_hex_number numbers (at 3))
    × IsRead numbers 2 BinaryDigit false (at 3) (parse_binary_number numbers (at 3))
    × IsRead numbers 10 DecimalDigit true (at 3) (parse_decimal_number numbers true (at 3))
parse_numbers_lem_example = parse_numbers_lem numbers (at 3) true (omega arith)

lex_numbers_lem_example :
    ((any : Bool) × (n : ℕ) × HoldsLiteral numbers
        (at 0)
        any
        n
        (lex_number numbers (at 0)).1.position
      × ((lex_number numbers (at 0)).0 ≡ literal_outcome any n))
    × ((any : Bool) × (n : ℕ) × HoldsLiteral numbers
          (skip_cp numbers (at 0))
          any
          n
          (lex_negative_number numbers (at 0)).1.position
        × ((lex_negative_number numbers (at 0)).0 ≡ negative_outcome any n))
lex_numbers_lem_example = lex_numbers_lem numbers (at 0) (omega arith)

-- The name of RSI, and its name in an earlier release.
abbrev source_index : List ℕ
source_index =
    0xD9 ∷ 0x81 ∷ 0xD9 ∷ 0x87 ∷ 0xD8 ∷ 0xB1 ∷ 0xD8 ∷ 0xB3 ∷ 0x5F ∷ 0xD8 ∷ 0xA7 ∷ 0xD9 ∷ 0x84 ∷ 0xD9
    ∷ 0x85 ∷ 0xD8 ∷ 0xB5 ∷ 0xD8 ∷ 0xAF ∷ 0xD8 ∷ 0xB1 ∷ []

abbrev old_source_index : List ℕ
old_source_index = 0xD9 ∷ 0x85 ∷ 0xD8 ∷ 0xB5 ∷ 0xD8 ∷ 0xAF ∷ 0xD8 ∷ 0xB1 ∷ []

source_index_lem : classify_register source_index ≡ pos 6
unfolding classify_register find_spelling reg_table spells same_bytes
source_index_lem = refl

classify_register_iff_example :
    (classify_register source_index ≡ pos 6) ↔ (get_elem? reg_table 6 ≡ some (source_index, 6))
classify_register_iff_example = classify_register_iff source_index 6

register_names_apart_example :
    (keywords_lookup source_index ≡ invalid)
    × (has_reserved_register_prefix source_index ≡ true)
    × (lexer_register_legacy_replacement source_index ≡ none)
register_names_apart_example = register_names_apart source_index 6 source_index_lem

register_named_example : (text : List ℕ) × (classify_register text ≡ pos reg_xmm15)
unfolding reg_width_bits
register_named_example = register_named reg_xmm15 (ground arith)

legacy_register_lem_example :
    (classify_register old_source_index ≡ negsuc 0) × (classify_register source_index ≢ negsuc 0)
unfolding lexer_register_legacy_replacement find_spelling legacy_registers spells same_bytes
legacy_register_lem_example = legacy_register_lem old_source_index source_index refl

scans-HoldsRun_example :
    HoldsRun move is_ident_continue 0 (scan_ident move source_start).1.position
    × HoldsRun move is_ident_continue 0 (scan_directive move source_start).1.position
scans-HoldsRun_example = scans-HoldsRun move source_start (omega arith)

move_valid : keywords_lookup move ≢ invalid
move_valid e = mov_valid (sym lookup_move ∙ e)

keyword-IsWord_example : IsWord move
keyword-IsWord_example = keyword-IsWord move move_valid

register-IsWord_example : IsWord source_index
register-IsWord_example = register-IsWord source_index 6 source_index_lem
