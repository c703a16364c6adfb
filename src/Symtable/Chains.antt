-- ===== src/Symtable/Chains.antt =====
-- Searches in a chain, and in the table, after a store and after a new entry.
use nazm.Prelude.{
  ◌≡◌, refl, sym, ap, ◌∙◌, ℕ, ==_iff, true, false, List, [], ◌∷◌, some, Bool-cases, if◌then◌else◌,
  ◌==◌, inl, inr, arith,
}
use nazm.Prelude.{same_bytes}
use nazm.Symtable.{
  Name, SymEntry, SymbolTable, bucket_of, find_in, find_entry, store_in, set_bucket, store,
  push_entry,
}
use nazm.Prelude.{same_bytes-≡, same_bytes_refl}

find_in-name :
    (es : List SymEntry) (name : Name) (e : SymEntry) → find_in es name ≡ some e → e.name ≡ name
unfolding find_in
find_in-name [] name e h = absurd (ground arith)
find_in-name (x ∷ es) name e h = ground (arith, find_in-name es name e, same_bytes-≡ x.name name)

store_in-found :
    (es : List SymEntry) (name : Name) (x e : SymEntry)
    → find_in es name ≡ some x
    → same_bytes e.name name ≡ true
    → find_in (store_in es name e) name ≡ some e
unfolding find_in store_in
store_in-found [] name x e h s = absurd (ground arith)
store_in-found (y ∷ es) name x e h s = ground (arith, store_in-found es name x e)

pub store_in-other :
    (es : List SymEntry) (name other : Name) (e : SymEntry)
    → e.name ≡ name
    → same_bytes name other ≡ false
    → find_in (store_in es name e) other ≡ find_in es other
unfolding find_in store_in
store_in-other [] name other e n d = refl
store_in-other (y ∷ es) name other e n d = elim (Bool-cases (same_bytes y.name name)) [
  | inl same ↦ rw (same, n, same_bytes-≡ y.name name same, d) refl
  | inr away ↦ rw (away, store_in-other es name other e n d) refl
]

==-refl : (a : ℕ) → (a == a) ≡ true
==-refl a = ground arith

-- A search after the chain of `name` was replaced.
find_entry-set :
    (st : SymbolTable) (n : ℕ) (name other : Name) (chain : List SymEntry) (e : SymEntry)
    → find_in chain name ≡ some e
    → (same_bytes name other ≡ false
        → find_in chain other ≡ find_in (st.buckets (bucket_of name)) other)
    → find_entry
        (record { buckets = set_bucket st.buckets (bucket_of name) chain; count = n })
        other
      ≡ (if same_bytes name other then some e else find_entry st other)
unfolding find_entry
find_entry-set st n name other chain e found kept = elim (Bool-cases (same_bytes name other)) [
  | inl same ↦ rw (same, ← same_bytes-≡ name other same, ==-refl (bucket_of name)) found
  | inr away ↦ elim (Bool-cases (bucket_of other == bucket_of name)) [
    | inl met ↦
        rw (away, met)
          (kept away ∙ ap (λ i. find_in (st.buckets i) other) (sym ((==_iff _ _).0 met)))
    | inr apart ↦ rw (away, apart) refl
  ]
]

pub find_entry-store :
    (st : SymbolTable) (name other : Name) (x e : SymEntry)
    → find_entry st name ≡ some x
    → e.name ≡ name
    → find_entry (store st name e) other
      ≡ (if same_bytes name other then some e else find_entry st other)
unfolding store find_entry
find_entry-store st name other x e h n =
    let same : same_bytes e.name name ≡ true = rw n (same_bytes_refl name) in
    find_entry-set st st.count name other _ e
      (store_in-found (st.buckets (bucket_of name)) name x e h same)
      (store_in-other (st.buckets (bucket_of name)) name other e n)

find_in-push :
    (es : List SymEntry) (e : SymEntry) (other : Name)
    → find_in (e ∷ es) other ≡ (if same_bytes e.name other then some e else find_in es other)
unfolding find_in
find_in-push es e other = refl

pub find_entry-push :
    (st : SymbolTable) (e : SymEntry) (other : Name)
    → find_entry (push_entry st e) other
      ≡ (if same_bytes e.name other then some e else find_entry st other)
unfolding push_entry
find_entry-push st e other =
    find_entry-set st _ e.name other _ e
      (rw (find_in-push (st.buckets (bucket_of e.name)) e e.name, same_bytes_refl e.name) refl)
      (λ away. rw (find_in-push (st.buckets (bucket_of e.name)) e other, away) refl)

pub find_entry-name :
    (st : SymbolTable) (name : Name) (e : SymEntry) → find_entry st name ≡ some e → e.name ≡ name
unfolding find_entry
find_entry-name st name e h = find_in-name (st.buckets (bucket_of name)) name e h
