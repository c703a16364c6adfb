-- ===== src/Lexer/Identifiers.antt =====
-- The scans of lexer/lexer.c for identifiers and directives. A copied text is its list of bytes.
pub mod Runs
pub mod Words
use nazm.Prelude.{ℕ, zero, suc, ◌-◌, Bool, not, ◌||◌, List, length, take, drop, if◌then◌else◌}
use nazm.Unicode.Classes.{is_arabic_letter, is_ident_continue}
use nazm.Lexer.Cursor.{Cursor, at_end, peek_cp, skip_cp}

-- The loop over the code points that pass the test, with fuel for every byte that is left.
unfoldable pub scan_loop : ℕ → List ℕ → (ℕ → Bool) → Cursor → Cursor
scan_loop zero src continues c = c
scan_loop (suc fuel) src continues c =
    let rest = scan_loop fuel src continues (skip_cp src c) in
    if at_end src c || not (continues (peek_cp src c)) then c else rest

unfoldable pub scan : List ℕ → (ℕ → Bool) → Cursor → Cursor
unfolding scan_loop
scan src continues c = scan_loop (length src - c.position) src continues c

-- `arena_strndup(arena, src->data + start, end - start)`
unfoldable pub slice : List ℕ → ℕ → ℕ → List ℕ
slice src start end = take (end - start) (drop start src)

unfoldable pub scan_ident : List ℕ → Cursor → List ℕ × Cursor
scan_ident src c =
    let end = scan src is_ident_continue c in (slice src c.position end.position, end)

unfoldable pub directive_continues : ℕ → Bool
directive_continues cp = is_ident_continue cp || is_arabic_letter cp

-- The text begins at the dot, which is before the cursor.
unfoldable pub scan_directive : List ℕ → Cursor → List ℕ × Cursor
scan_directive src c =
    let end = scan src directive_continues c in (slice src (c.position - 1) end.position, end)
