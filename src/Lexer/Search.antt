-- ===== src/Lexer/Search.antt =====
-- The searches of the lexer's tables (lexer/keywords.c, lexer/lexer.c): a table ends in a NULL
-- spelling, and the first entry that spells the text is found.
use nazm.Prelude.{
  ℕ, zero, suc, ◌≡◌, refl, ap, Bool, true, false, not, ◌&&◌, List, [], ◌∷◌, Option, none, some,
  length, get_elem?, ◌==◌, if◌then◌else◌, Bool-cases, inl, inr, arith, same_bytes, same_bytes-≡,
  same_bytes_refl,
}

-- `strlen(spelling) == len && memcmp(spelling, text, len) == 0`
unfoldable pub spells : List ℕ → List ℕ → Bool
spells spelling text = length spelling == length text && same_bytes spelling text

spells-≡ : (a b : List ℕ) → spells a b ≡ true → a ≡ b
unfolding spells
spells-≡ a b h = same_bytes-≡ a b (ground arith)

spells_refl : (a : List ℕ) → spells a a ≡ true
unfolding spells
spells_refl a = ground (arith, same_bytes_refl a)

module _ {ℓ} {A : Type ℓ} where
  -- The loop over the entries.
  unfoldable pub find_spelling : List (List ℕ × A) → List ℕ → Option A
  find_spelling [] text = none
  find_spelling ((spelling, value) ∷ entries) text =
      let rest = find_spelling entries text in if spells spelling text then some value else rest

  abbrev pub IsEntry : List (List ℕ × A) → List ℕ → A → Type ℓ
  IsEntry entries text value = (i : ℕ) × (get_elem? entries i ≡ some (text, value))

  -- The text spells no entry.
  unfoldable absent_from : List (List ℕ × A) → List ℕ → Bool
  absent_from [] text = true
  absent_from ((spelling, value) ∷ entries) text =
      not (spells text spelling) && absent_from entries text

  unfoldable pub distinct : List (List ℕ × A) → Bool
  unfolding absent_from
  distinct [] = true
  distinct ((spelling, value) ∷ entries) = absent_from entries spelling && distinct entries

  pub find_spelling-IsEntry :
      (entries : List (List ℕ × A)) (text : List ℕ) (value : A)
      → find_spelling entries text ≡ some value
      → IsEntry entries text value
  unfolding find_spelling
  find_spelling-IsEntry [] text value h = absurd (ground arith)
  find_spelling-IsEntry ((spelling, v) ∷ entries) text value h =
      elim (Bool-cases (spells spelling text)) [
        | inl same ↦
            let found : some v ≡ some value = rw same at h in
            let is_value : v ≡ value = ap (elim [ none ↦ v | some x ↦ x ]) found in
            (zero, rw (spells-≡ spelling text same, is_value) refl)
        | inr away ↦
            let (i, e) = find_spelling-IsEntry entries text value (rw away at h) in (suc i, e)
      ]

  absent_entry :
      (entries : List (List ℕ × A)) (i : ℕ) (earlier text : List ℕ) (value : A)
      → absent_from entries earlier ≡ true
      → get_elem? entries i ≡ some (text, value)
      → spells earlier text ≡ false
  unfolding absent_from
  absent_entry [] i earlier text value a e = absurd (ground arith)
  absent_entry ((spelling, v) ∷ entries) zero earlier text value a e =
      let spelled : spelling ≡ text = ap (elim [ none ↦ spelling | some p ↦ p.0 ]) e in
      rw (← spelled) (ground arith)
  absent_entry ((spelling, v) ∷ entries) (suc i) earlier text value a e =
      absent_entry entries i earlier text value (ground arith) e

  pub entry_found :
      (entries : List (List ℕ × A)) (i : ℕ) (text : List ℕ) (value : A)
      → distinct entries ≡ true
      → get_elem? entries i ≡ some (text, value)
      → find_spelling entries text ≡ some value
  unfolding find_spelling distinct
  entry_found [] i text value d e = absurd (ground arith)
  entry_found ((spelling, v) ∷ entries) zero text value d e =
      let spelled : spelling ≡ text = ap (elim [ none ↦ spelling | some p ↦ p.0 ]) e in
      let is_value : v ≡ value = ap (elim [ none ↦ v | some p ↦ p.1 ]) e in
      rw (spelled, spells_refl text, is_value) refl
  entry_found ((spelling, v) ∷ entries) (suc i) text value d e =
      rw (absent_entry entries i spelling text value (ground arith) e)
        (entry_found entries i text value (ground arith) e)

  -- A test of all the entries.
  unfoldable pub all_entries : (List ℕ → A → Bool) → List (List ℕ × A) → Bool
  all_entries test [] = true
  all_entries test ((spelling, value) ∷ entries) = test spelling value && all_entries test entries

  pub found_passes :
      (test : List ℕ → A → Bool) (entries : List (List ℕ × A)) (text : List ℕ) (value : A)
      → all_entries test entries ≡ true
      → find_spelling entries text ≡ some value
      → test text value ≡ true
  unfolding find_spelling all_entries
  found_passes test [] text value p h = absurd (ground arith)
  found_passes test ((spelling, v) ∷ entries) text value p h =
      elim (Bool-cases (spells spelling text)) [
        | inl same ↦
            let found : some v ≡ some value = rw same at h in
            let is_value : v ≡ value = ap (elim [ none ↦ v | some x ↦ x ]) found in
            rw (← spells-≡ spelling text same, ← is_value) (ground arith)
        | inr away ↦ found_passes test entries text value (ground arith) (rw away at h)
      ]
