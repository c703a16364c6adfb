-- ===== src/Lexer/Registers/Names.antt =====
-- What the register names of lexer/lexer.c mean, and how they stand to the keywords, to the reserved
-- prefixes and to the names of earlier releases.
use nazm.Prelude.{
  ℕ, ◌≡◌, ◌≢◌, ◌↔◌, refl, sym, ap, ◌∙◌, Bool, true, false, not, ◌&&◌, List, [], Option, none, some,
  get_elem?, get_elem?-lt, length, ◌<◌, ◌==◌, ==_iff, ℤ, pos, negsuc, eq_ℤ, arith, same_bytes,
  holds_below, holds_below-lt,
}
use nazm.Encoder.Registers.{RegId, reg_width_bits}
use nazm.Encoder.Opcodes.{invalid}
use nazm.Lexer.Search.{
  spells, find_spelling, distinct, all_entries, find_spelling-IsEntry, entry_found, found_passes,
}
use nazm.Lexer.Keywords.{keywords_lookup}
use nazm.Lexer.Keywords.Tables.{keyword_table}
use nazm.Lexer.Keywords.Lookup.{is_invalid, is_invalid-≡}
use nazm.Lexer.Registers.{
  classify_register, lexer_register_legacy_replacement, begins_with, any_prefix,
  has_reserved_register_prefix,
}
use nazm.Lexer.Registers.Tables.{reg_table, legacy_registers, reserved_register_prefixes}

found_register :
    (found : Option RegId) (r : RegId)
    → elim found [ none ↦ negsuc 0 | some id ↦ pos id ] ≡ pos r
    → found ≡ some r
found_register none r h = absurd (ground arith)
found_register (some id) r h = let same : id ≡ r = ground arith in ap (λ (x : ℕ). some x) same

pub is_listed :
    (text : List ℕ) (r : RegId)
    → classify_register text ≡ pos r
    → find_spelling reg_table text ≡ some r
unfolding classify_register
is_listed text r h = found_register (find_spelling reg_table text) r h

-- The name at a place of the table, and that the table is in the order of the identities.
name_at : ℕ → List ℕ
name_at i = elim (get_elem? reg_table i) [ none ↦ [] | some p ↦ p.0 ]

abbrev in_order : ℕ → Bool
in_order i = elim (get_elem? reg_table i) [ none ↦ false | some p ↦ p.1 == i ]

reg_table-in_order : holds_below in_order 80 ≡ true
unfolding holds_below reg_table
reg_table-in_order = refl

reg_table-distinct : distinct reg_table ≡ true
unfolding reg_table spells same_bytes distinct
reg_table-distinct = refl

length-reg_table : length reg_table ≡ 80
unfolding reg_table
length-reg_table = refl

in_place :
    (o : Option (List ℕ × RegId)) (i : ℕ) (text : List ℕ) (r : RegId)
    → elim o [ none ↦ false | some p ↦ p.1 == i ] ≡ true
    → o ≡ some (text, r)
    → r ≡ i
in_place none i text r h e = absurd (ground arith)
in_place (some (t, id)) i text r h e =
    sym (ap (elim [ none ↦ id | some p ↦ p.1 ]) e) ∙ (==_iff id i).0 h

entry_place : (i : ℕ) (text : List ℕ) (r : RegId) → get_elem? reg_table i ≡ some (text, r) → r ≡ i
entry_place i text r e =
    let inside = get_elem?-lt reg_table i (text, r) e in
    let placed : in_order i ≡ true =
      holds_below-lt in_order 80 i (omega (arith, length-reg_table)) reg_table-in_order in
    in_place (get_elem? reg_table i) i text r placed e

-- A text names a register exactly when it is the spelling at the register's place in the table, so
-- no two texts name one register.
pub classify_register_iff :
    (text : List ℕ) (r : RegId)
    → (classify_register text ≡ pos r) ↔ (get_elem? reg_table r ≡ some (text, r))
unfolding classify_register
classify_register_iff text r = (
  λ h.
      let (i, e) = find_spelling-IsEntry reg_table text r (is_listed text r h) in
      ap (get_elem? reg_table) (entry_place i text r e) ∙ e,
  λ e.
      ap (elim [ none ↦ negsuc 0 | some id ↦ pos id ])
        (entry_found reg_table r text r reg_table-distinct e),
)

-- The test of one entry against the keywords, the prefixes and the earlier names.
abbrev no_text : Option (List ℕ) → Bool
no_text none = true
no_text (some t) = false

kept_apart : List ℕ → RegId → Bool
unfolding keywords_lookup has_reserved_register_prefix lexer_register_legacy_replacement
kept_apart text r =
    is_invalid (keywords_lookup text)
    && has_reserved_register_prefix text
    && no_text (lexer_register_legacy_replacement text)

reg_table-kept_apart : all_entries kept_apart reg_table ≡ true
unfolding reg_table legacy_registers reserved_register_prefixes keyword_table find_spelling spells
    same_bytes all_entries kept_apart any_prefix begins_with
reg_table-kept_apart = refl

no_text-≡ : (o : Option (List ℕ)) → no_text o ≡ true → o ≡ none
no_text-≡ none h = refl
no_text-≡ (some t) h = absurd (ground arith)

kept_apart_iff :
    (text : List ℕ) (r : RegId)
    → kept_apart text r ≡ true
    → (is_invalid (keywords_lookup text) ≡ true)
      × (has_reserved_register_prefix text ≡ true)
      × (no_text (lexer_register_legacy_replacement text) ≡ true)
unfolding kept_apart
kept_apart_iff text r h = ground arith

-- A text that names a register is no keyword, has a reserved prefix, and has no replacement as a
-- name of an earlier release.
pub register_names_apart :
    (text : List ℕ) (r : RegId)
    → classify_register text ≡ pos r
    → (keywords_lookup text ≡ invalid)
      × (has_reserved_register_prefix text ≡ true)
      × (lexer_register_legacy_replacement text ≡ none)
register_names_apart text r h =
    let (word, prefix, legacy) =
      kept_apart_iff text r
        (found_passes kept_apart reg_table text r reg_table-kept_apart (is_listed text r h)) in
    (is_invalid-≡ _ word, prefix, no_text-≡ _ legacy)

placed_entry :
    (o : Option (List ℕ × RegId)) (r : RegId)
    → elim o [ none ↦ false | some p ↦ p.1 == r ] ≡ true
    → o ≡ some (elim o [ none ↦ [] | some p ↦ p.0 ], r)
placed_entry none r h = absurd (ground arith)
placed_entry (some (text, id)) r h = rw ((==_iff id r).0 h) refl

entry_at : (r : RegId) → r < 80 → get_elem? reg_table r ≡ some (name_at r, r)
unfolding name_at
entry_at r inside =
    placed_entry (get_elem? reg_table r) r (holds_below-lt in_order 80 r inside reg_table-in_order)

-- Every identity with a width is named by a text of the language.
pub register_named :
    (r : RegId) → reg_width_bits r ≢ 0 → (text : List ℕ) × (classify_register text ≡ pos r)
unfolding reg_width_bits
register_named r w =
    let inside : r < 80 = ground arith in
    (name_at r, (classify_register_iff (name_at r) r).1 (entry_at r inside))

-- The old name names no register, and the new one does.
renames : List ℕ → List ℕ → Bool
unfolding classify_register
renames legacy replacement =
    eq_ℤ (classify_register legacy) (negsuc 0)
    && not (eq_ℤ (classify_register replacement) (negsuc 0))

legacy_registers-renames : all_entries renames legacy_registers ≡ true
unfolding legacy_registers reg_table find_spelling spells same_bytes all_entries renames
legacy_registers-renames = refl

renames_iff :
    (legacy replacement : List ℕ)
    → renames legacy replacement ≡ true
    → (eq_ℤ (classify_register legacy) (negsuc 0) ≡ true)
      × (eq_ℤ (classify_register replacement) (negsuc 0) ≡ false)
unfolding renames
renames_iff legacy replacement h = ground arith

eq_ℤ-≡ : (a b : ℤ) → eq_ℤ a b ≡ true → a ≡ b
eq_ℤ-≡ a b h = ground arith

eq_ℤ-≢ : (a b : ℤ) → eq_ℤ a b ≡ false → a ≢ b
eq_ℤ-≢ a b h e = absurd (ground arith)

-- A text with a replacement as a register name of an earlier release names no register, and its
-- replacement names one.
pub legacy_register_lem :
    (text replacement : List ℕ)
    → lexer_register_legacy_replacement text ≡ some replacement
    → (classify_register text ≡ negsuc 0) × (classify_register replacement ≢ negsuc 0)
unfolding lexer_register_legacy_replacement
legacy_register_lem text replacement h =
    let (old, new) =
      renames_iff text replacement
        (found_passes renames legacy_registers text replacement legacy_registers-renames h) in
    (eq_ℤ-≡ _ _ old, eq_ℤ-≢ _ _ new)
