-- ===== src/Lexer/Keywords.antt =====
-- The lookups of lexer/keywords.c. `text` is the list of its `len` bytes.
pub mod Tables
pub mod Lookup
use nazm.Prelude.{ℕ, List, Option, none, some}
use nazm.Encoder.Opcodes.{Opcode, invalid}
use nazm.Lexer.Search.{find_spelling}
use Tables.{keyword_table, legacy_keywords}

unfoldable pub keywords_lookup : List ℕ → Opcode
keywords_lookup text = elim (find_spelling keyword_table text) [
  | none ↦ invalid
  | some opcode ↦ opcode
]

unfoldable pub keywords_legacy_replacement : List ℕ → Option (List ℕ)
keywords_legacy_replacement text = find_spelling legacy_keywords text
