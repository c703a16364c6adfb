-- ===== src/Lexer/Cursor.antt =====
-- The reading position of lexer/lexer.c: `Lexer` without its token list, its errors and its arena.
use nazm.Prelude.{ℕ, ◌+◌, Bool, List, leb, ◌==◌, if◌then◌else◌, length}
use nazm.Unicode.Utf8.{utf8_next_codepoint, utf8_peek_codepoint}

pub record Cursor : Type 0 where
  pub position : ℕ
  pub line : ℕ
  pub col : ℕ

unfoldable pub at_end : List ℕ → Cursor → Bool
at_end src c = leb (length src) c.position

unfoldable pub peek_cp : List ℕ → Cursor → ℕ
peek_cp src c = utf8_peek_codepoint src c.position

-- The code point of `advance_cp` is the one that `peek_cp` gives; this is the cursor after it.
unfoldable pub skip_cp : List ℕ → Cursor → Cursor
skip_cp src c =
    let (cp, next) = utf8_next_codepoint src c.position in
    if cp == 0x0A
    then record { position = next; line = c.line + 1; col = 1 }
    else record { position = next; line = c.line; col = c.col + 1 }
