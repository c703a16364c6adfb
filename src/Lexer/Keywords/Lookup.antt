-- ===== src/Lexer/Keywords/Lookup.antt =====
-- What the lookups of lexer/keywords.c find: exactly the entries of the tables.
use nazm.Prelude.{
  ℕ, ◌≡◌, ◌≢◌, ◌↔◌, refl, sym, ap, ◌∙◌, Bool, true, false, not, ◌&&◌, List, Option, none, some,
  arith, same_bytes,
}
use nazm.Encoder.Opcodes.{Opcode, invalid}
use nazm.Lexer.Search.{
  spells, find_spelling, IsEntry, distinct, all_entries, find_spelling-IsEntry, entry_found,
  found_passes,
}
use nazm.Lexer.Keywords.{keywords_lookup, keywords_legacy_replacement}
use nazm.Lexer.Keywords.Tables.{keyword_table, legacy_keywords}

keyword_table-distinct : distinct keyword_table ≡ true
unfolding keyword_table spells same_bytes distinct
keyword_table-distinct = refl

pub found_keyword :
    (found : Option Opcode) (opcode : Opcode)
    → opcode ≢ invalid
    → elim found [ none ↦ invalid | some op ↦ op ] ≡ opcode
    → found ≡ some opcode
found_keyword none opcode v h = absurd (v (sym h))
found_keyword (some op) opcode v h = ap (λ o. some o) h

-- A text is looked up as an operation other than OPCODE_INVALID exactly when the table has an entry
-- with this spelling and this operation.
pub keywords_lookup_iff :
    (text : List ℕ) (opcode : Opcode)
    → opcode ≢ invalid
    → (keywords_lookup text ≡ opcode) ↔ IsEntry keyword_table text opcode
unfolding keywords_lookup
keywords_lookup_iff text opcode v = (
  λ h. find_spelling-IsEntry keyword_table text opcode (found_keyword _ opcode v h),
  λ (i, e).
      ap (elim [ none ↦ invalid | some op ↦ op ])
        (entry_found keyword_table i text opcode keyword_table-distinct e),
)

abbrev pub is_invalid : Opcode → Bool
is_invalid invalid = true
is_invalid _ = false

pub is_invalid-≡ : (op : Opcode) → is_invalid op ≡ true → op ≡ invalid
is_invalid-≡ op h = ground arith

pub is_keyword : (op : Opcode) → is_invalid op ≡ false → op ≢ invalid
is_keyword op new e =
    let clash : true ≡ false = sym (ap is_invalid e) ∙ new in absurd (ground arith)

-- The old spelling is no keyword and the new one is.
replaces : List ℕ → List ℕ → Bool
unfolding keywords_lookup
replaces legacy replacement =
    is_invalid (keywords_lookup legacy) && not (is_invalid (keywords_lookup replacement))

legacy_keywords-replaces : all_entries replaces legacy_keywords ≡ true
unfolding legacy_keywords keyword_table find_spelling spells same_bytes all_entries replaces
legacy_keywords-replaces = refl

replaces_iff :
    (legacy replacement : List ℕ)
    → replaces legacy replacement ≡ true
    → (is_invalid (keywords_lookup legacy) ≡ true)
      × (is_invalid (keywords_lookup replacement) ≡ false)
unfolding replaces
replaces_iff legacy replacement h = ground arith

-- A text with a legacy replacement is no keyword, and its replacement is one.
pub legacy_replacement_lem :
    (text replacement : List ℕ)
    → keywords_legacy_replacement text ≡ some replacement
    → (keywords_lookup text ≡ invalid) × (keywords_lookup replacement ≢ invalid)
unfolding keywords_legacy_replacement
legacy_replacement_lem text replacement h =
    let (old, new) =
      replaces_iff text replacement
        (found_passes replaces legacy_keywords text replacement legacy_keywords-replaces h) in
    (is_invalid-≡ _ old, is_keyword _ new)
