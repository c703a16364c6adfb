-- ===== src/Lexer/Identifiers/Words.antt =====
-- Every mnemonic of lexer/keywords.c and every register name of lexer/lexer.c is a word to the
-- scanner.
use nazm.Prelude.{ℕ, ◌≡◌, ◌≢◌, refl, Bool, true, ◌&&◌, List, pos, arith, same_bytes, same_bytes-≡}
use nazm.Encoder.Registers.{RegId}
use nazm.Encoder.Opcodes.{invalid}
use nazm.Unicode.Utf8.{
  utf8_next_codepoint, utf8_peek_codepoint, sequence, continuation_loop, minimum,
}
use nazm.Unicode.Classes.{is_arabic_letter, nazm_is_arabic_digit, is_ident_start, is_ident_continue}
use nazm.Lexer.Cursor.{Cursor, at_end, peek_cp, skip_cp}
use nazm.Lexer.Search.{all_entries, found_passes}
use nazm.Lexer.Keywords.{keywords_lookup}
use nazm.Lexer.Keywords.Tables.{keyword_table}
use nazm.Lexer.Keywords.Lookup.{found_keyword}
use nazm.Lexer.Registers.{classify_register}
use nazm.Lexer.Registers.Tables.{reg_table}
use nazm.Lexer.Registers.Names.{is_listed}
use nazm.Lexer.Identifiers.{scan_loop, scan, slice, scan_ident}

abbrev pub source_start : Cursor
source_start = record { position = 0; line = 1; col = 1 }

-- The text starts an identifier, and the scan from its start gives all of it.
is_word : {A : Type 0} → List ℕ → A → Bool
is_word text value =
    is_ident_start (peek_cp text source_start) && same_bytes (scan_ident text source_start).0 text

keyword_table-is_word : all_entries is_word keyword_table ≡ true
unfolding keyword_table all_entries is_word scan_loop scan slice scan_ident same_bytes at_end
    peek_cp skip_cp utf8_next_codepoint utf8_peek_codepoint sequence continuation_loop minimum
    is_arabic_letter nazm_is_arabic_digit is_ident_start is_ident_continue
keyword_table-is_word = refl

reg_table-is_word : all_entries is_word reg_table ≡ true
unfolding reg_table all_entries is_word scan_loop scan slice scan_ident same_bytes at_end peek_cp
    skip_cp utf8_next_codepoint utf8_peek_codepoint sequence continuation_loop minimum
    is_arabic_letter nazm_is_arabic_digit is_ident_start is_ident_continue
reg_table-is_word = refl

abbrev pub IsWord : List ℕ → Type 0
IsWord text =
    (is_ident_start (peek_cp text source_start) ≡ true) × ((scan_ident text source_start).0 ≡ text)

is_word-IsWord : {A : Type 0} (text : List ℕ) (value : A) → is_word text value ≡ true → IsWord text
unfolding is_word
is_word-IsWord text value h = (ground arith, same_bytes-≡ _ text (ground arith))

-- A text that is looked up as a keyword may start an identifier, and the scan of an identifier takes
-- all of it.
pub keyword-IsWord : (text : List ℕ) → keywords_lookup text ≢ invalid → IsWord text
unfolding keywords_lookup
keyword-IsWord text v = is_word-IsWord text (keywords_lookup text) (
    found_passes is_word keyword_table text (keywords_lookup text) keyword_table-is_word
      (found_keyword _ _ v refl))

-- A text that names a register may start an identifier, and the scan of an identifier takes all of
-- it.
pub register-IsWord : (text : List ℕ) (r : RegId) → classify_register text ≡ pos r → IsWord text
register-IsWord text r h =
    is_word-IsWord text r
      (found_passes is_word reg_table text r reg_table-is_word (is_listed text r h))
