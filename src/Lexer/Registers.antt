-- ===== src/Lexer/Registers.antt =====
-- The register names of lexer/lexer.c. `text` is the list of its `len` bytes.
pub mod Tables
pub mod Names
use nazm.Prelude.{
  ℕ, Bool, true, false, ◌&&◌, ◌||◌, List, [], ◌∷◌, Option, none, some, ◌==◌, ℤ, pos, negsuc,
}
use nazm.Lexer.Search.{find_spelling}
use Tables.{reg_table, legacy_registers, reserved_register_prefixes}

unfoldable pub classify_register : List ℕ → ℤ
classify_register text = elim (find_spelling reg_table text) [
  | none ↦ negsuc 0
  | some reg_id ↦ pos reg_id
]

unfoldable pub lexer_register_id : List ℕ → ℤ
lexer_register_id name = classify_register name

unfoldable pub lexer_register_legacy_replacement : List ℕ → Option (List ℕ)
lexer_register_legacy_replacement name = find_spelling legacy_registers name

-- `len >= prefix_len && memcmp(text, prefix, prefix_len) == 0`
unfoldable pub begins_with : List ℕ → List ℕ → Bool
begins_with [] text = true
begins_with (x ∷ xs) [] = false
begins_with (x ∷ xs) (y ∷ ys) = x == y && begins_with xs ys

unfoldable pub any_prefix : List (List ℕ) → List ℕ → Bool
any_prefix [] text = false
any_prefix (prefix ∷ prefixes) text = begins_with prefix text || any_prefix prefixes text

unfoldable pub has_reserved_register_prefix : List ℕ → Bool
has_reserved_register_prefix text = any_prefix reserved_register_prefixes text
