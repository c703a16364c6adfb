-- ===== src/Symtable/WellFormed.antt =====
-- The shape of the table of symtable/symtable.c: every entry stands in the chain of its hash, a
-- chain has one entry for a name, and the count is the number of entries.
use nazm.Prelude.{
  Option-cases, ℕ, zero, suc, ◌+◌, ◌≤◌, ◌<◌, ◌≡◌, refl, sym, ap, ◌∙◌, Bool, true, false, not, ◌&&◌,
  ◌||◌, List, [], ◌∷◌, none, length, ==_iff, ◌==◌, if◌then◌else◌, Bool-cases, inl, inr, ℤ, arith,
}
use nazm.Prelude.{same_bytes}
use nazm.Symtable.{
  Name, global, same_binding, SymEntry, SymbolTable, symtable_buckets, bucket_of, find_in,
  find_entry, set_bucket, store_in, store, push_entry, symtable_init, fresh,
  symtable_insert_section, symtable_declare_binding, symtable_declare_external, symtable_patch,
}
use nazm.Prelude.{same_bytes-≡, same_bytes-away}
use nazm.Symtable.Chains.{find_entry-name, store_in-other}
use nazm.Symtable.Symbols.{Request, insert_section, declare_binding, declare_external}
use nazm.Symtable.Effects.{perform}

bucket_of-lt : (name : Name) → bucket_of name < symtable_buckets
unfolding bucket_of
bucket_of-lt name = omega arith

-- The chain of bucket `i`.
abbrev pub IsChain : ℕ → List SymEntry → Type 0
IsChain i [] = Unit
IsChain i (e ∷ es) = (bucket_of e.name ≡ i) × (find_in es e.name ≡ none) × IsChain i es

unfoldable pub sum_below : ℕ → (ℕ → ℕ) → ℕ
sum_below zero f = 0
sum_below (suc n) f = f n + sum_below n f

pub record IsWellFormed (st : SymbolTable) : Type 0 where
  pub chains : (i : ℕ) → IsChain i (st.buckets i)
  pub counted : sum_below symtable_buckets (λ i. length (st.buckets i)) ≡ st.count

sum_outside :
    (n idx : ℕ) (buckets : ℕ → List SymEntry) (chain : List SymEntry)
    → n ≤ idx
    → sum_below n (λ i. length (set_bucket buckets idx chain i))
      ≡ sum_below n (λ i. length (buckets i))
unfolding sum_below
sum_outside zero idx buckets chain h = refl
sum_outside (suc n) idx buckets chain h =
    ground (arith, sum_outside n idx buckets chain (omega arith))

sum_set :
    (n idx : ℕ) (buckets : ℕ → List SymEntry) (chain : List SymEntry)
    → idx < n
    → sum_below n (λ i. length (set_bucket buckets idx chain i)) + length (buckets idx)
      ≡ sum_below n (λ i. length (buckets i)) + length chain
unfolding sum_below
sum_set zero idx buckets chain h = absurd (omega arith)
sum_set (suc n) idx buckets chain h = elim (Bool-cases (n == idx)) [
  | inl last ↦ rw last (
      omega (
        arith,
        sum_outside n idx buckets chain (ground arith),
        ap (λ i. length (buckets i)) ((==_iff n idx).0 last),
      ))
  | inr before ↦ rw before (omega (arith, sum_set n idx buckets chain (ground arith)))
]

length-store_in :
    (es : List SymEntry) (name : Name) (e : SymEntry) → length (store_in es name e) ≡ length es
unfolding store_in
length-store_in [] name e = refl
length-store_in (x ∷ es) name e = ground (arith, length-store_in es name e)

store_in-IsChain :
    (i : ℕ) (es : List SymEntry) (name : Name) (e : SymEntry)
    → e.name ≡ name
    → IsChain i es
    → IsChain i (store_in es name e)
unfolding store_in
store_in-IsChain i [] name e n c = c
store_in-IsChain i (x ∷ es) name e n c = elim (Bool-cases (same_bytes x.name name)) [
  | inl same ↦
      let moved : x.name ≡ e.name = same_bytes-≡ x.name name same ∙ sym n in
      rw same (ap bucket_of (sym moved) ∙ c.0, ap (find_in es) (sym moved) ∙ c.1, c.2)
  | inr away ↦ rw away (
    c.0,
    store_in-other es name x.name e n (same_bytes-away x.name name away) ∙ c.1,
    store_in-IsChain i es name e n c.2,
  )
]

module _ (st : SymbolTable) (w : IsWellFormed st) where
  set-chains :
      (idx : ℕ) (chain : List SymEntry) (i : ℕ)
      → IsChain idx chain
      → IsChain i (set_bucket st.buckets idx chain i)
  set-chains idx chain i c = elim (Bool-cases (i == idx)) [
    | inl met ↦ rw (met, (==_iff i idx).0 met) c
    | inr apart ↦ rw apart (w.chains i)
  ]

  store-IsWellFormed : (name : Name) (e : SymEntry) → e.name ≡ name → IsWellFormed (store st name e)
  unfolding store
  store-IsWellFormed name e n =
      let idx = bucket_of name in
      record {
        chains =
            λ i. set-chains idx _ i (store_in-IsChain idx (st.buckets idx) name e n (w.chains idx));
        counted = omega (
          arith,
          w.counted,
          length-store_in (st.buckets idx) name e,
          sum_set symtable_buckets idx st.buckets (store_in (st.buckets idx) name e)
              (bucket_of-lt name),
        );
      }

  push-IsWellFormed : (e : SymEntry) → find_entry st e.name ≡ none → IsWellFormed (push_entry st e)
  unfolding push_entry find_entry
  push-IsWellFormed e absent =
      let idx = bucket_of e.name in
      record {
        chains = λ i. set-chains idx _ i (refl, absent, w.chains idx);
        counted = omega (
          arith,
          w.counted,
          sum_set symtable_buckets idx st.buckets (e ∷ st.buckets idx) (bucket_of-lt e.name),
        );
      }

pub init-IsWellFormed : IsWellFormed symtable_init
unfolding symtable_init sum_below
init-IsWellFormed = record { chains = λ i. tt; counted = refl }

-- The two changes that the operations make.
data Change (st : SymbolTable) : Bool × SymbolTable → Type 0 where
  unchanged : (reply : Bool) → Change st (reply, st)
  stored : (name : Name) (e : SymEntry) → e.name ≡ name → Change st (true, store st name e)
  pushed : (e : SymEntry) → find_entry st e.name ≡ none → Change st (true, push_entry st e)

Change-IsWellFormed :
    (st : SymbolTable) (result : Bool × SymbolTable)
    → IsWellFormed st
    → Change st result
    → IsWellFormed result.1
Change-IsWellFormed st _ w (unchanged reply) = w
Change-IsWellFormed st _ w (stored name e n) = store-IsWellFormed st w name e n
Change-IsWellFormed st _ w (pushed e absent) = push-IsWellFormed st w e absent

if-Change :
    {st : SymbolTable} {a b : Bool × SymbolTable} (c : Bool)
    → Change st a
    → Change st b
    → Change st (if c then a else b)
if-Change true p q = p
if-Change false p q = q

module _ (st : SymbolTable) where
  perform-Change : (r : Request) → Change st (perform r st)
  unfolding perform symtable_insert_section symtable_declare_binding symtable_declare_external fresh
  perform-Change (insert_section name section offset) = elim (Option-cases (find_entry st name)) [
    | inl f ↦ rw (symtable_insert_section, f) (pushed _ f)
    | inr (e, f) ↦
        rw (symtable_insert_section, f)
          (if-Change (e.defined || e.external_declared) (unchanged false)
            (stored name _ (find_entry-name st name e f)))
  ]
  perform-Change (declare_binding name binding) = elim (Option-cases (find_entry st name)) [
    | inl f ↦ rw (symtable_declare_binding, f) (pushed _ f)
    | inr (e, f) ↦
        rw (symtable_declare_binding, f)
          (if-Change (e.binding_declared && not (same_binding e.binding binding)) (unchanged false)
            (stored name _ (find_entry-name st name e f)))
  ]
  perform-Change (declare_external name) = elim (Option-cases (find_entry st name)) [
    | inl f ↦ rw (symtable_declare_external, f) (pushed _ f)
    | inr (e, f) ↦
        rw (symtable_declare_external, f)
          (if-Change (e.defined || (e.binding_declared && not (same_binding e.binding global)))
            (unchanged false) (stored name _ (find_entry-name st name e f)))
  ]

  patch-Change : (name : Name) (offset : ℤ) → Change st (symtable_patch st name offset)
  unfolding symtable_patch
  patch-Change name offset = elim (Option-cases (find_entry st name)) [
    | inl f ↦ rw (symtable_patch, f) (unchanged false)
    | inr (e, f) ↦ rw (symtable_patch, f) (stored name _ (find_entry-name st name e f))
  ]

-- Insertions, declarations and patches keep a table well formed: every entry stands in the chain
-- of its hash, no chain has two entries of one name, and `count` is the number of entries.
pub operations-IsWellFormed :
    (st : SymbolTable) (r : Request) (name : Name) (offset : ℤ)
    → IsWellFormed st
    → IsWellFormed (perform r st).1 × IsWellFormed (symtable_patch st name offset).1
operations-IsWellFormed st r name offset w = (
  Change-IsWellFormed st _ w (perform-Change st r),
  Change-IsWellFormed st _ w (patch-Change st name offset),
)
