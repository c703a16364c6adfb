-- ===== src/Symtable/Refinement.antt =====
-- The table of symtable/symtable.c implements the map of symbols: on every sequence of requests the
-- replies are the same, and so are the lookups afterwards.
use mathlib.Core.Path.{fun_ext}
use nazm.Prelude.{
  ◌≡◌, refl, ap, Bool, true, false, not, ◌&&◌, List, [], ◌∷◌, Option, none, some, Bool-cases,
  if◌then◌else◌, inl, inr, ℤ, arith,
}
use nazm.Prelude.{same_bytes}
use nazm.Symtable.{
  Name, SymbolSection, SymbolBinding, SymEntry, SymbolTable, find_in, find_entry, symtable_init,
  symtable_is_external, symtable_lookup_ex, symtable_lookup_binding,
}
use nazm.Symtable.Effects.{perform, sound_or_none, perform-Effect}
use nazm.Symtable.Symbols.{
  Symbol, absent, external, defined, Request, Symbols, subject, specified, symbol_of, view,
}

-- The replies to a sequence of requests, and the table afterwards.
unfoldable pub run : List Request → SymbolTable → List Bool × SymbolTable
run [] st = ([], st)
run (r ∷ rs) st =
    let (reply, after) = perform r st in let (replies, end) = run rs after in (reply ∷ replies, end)

unfoldable pub run_specified : List Request → Symbols → List Bool × Symbols
run_specified [] symbols = ([], symbols)
run_specified (r ∷ rs) symbols =
    let (reply, after) = specified r symbols in
    let (replies, end) = run_specified rs after in (reply ∷ replies, end)

abbrev pub AllSound : SymbolTable → Type 0
AllSound st = (name : Name) → sound_or_none (find_entry st name) ≡ true

pub init-AllSound : AllSound symtable_init
unfolding find_entry find_in symtable_init
init-AllSound name = refl

init-view : view symtable_init ≡ (λ _. absent)
unfolding view symbol_of find_entry find_in symtable_init
init-view = refl

module _ (r : Request) (st : SymbolTable) (h : AllSound st) where
  pub perform-view : view (perform r st).1 ≡ (specified r (view st)).1
  unfolding view specified
  perform-view =
      let e = perform-Effect r st (h (subject r)) in
      fun_ext (λ other. rw (e.finds other) (elim (Bool-cases (same_bytes (subject r) other)) [
        | inl same ↦ rw same e.becomes
        | inr away ↦ rw away refl
      ]))

  pub perform-reply : (perform r st).0 ≡ (specified r (view st)).0
  unfolding specified
  perform-reply = (perform-Effect r st (h (subject r))).replies

  pub perform-AllSound : AllSound (perform r st).1
  perform-AllSound other =
      let e = perform-Effect r st (h (subject r)) in
      rw (e.finds other) (elim (Bool-cases (same_bytes (subject r) other)) [
        | inl same ↦ rw same e.is_sound
        | inr away ↦ rw away (h other)
      ])

pub run-AllSound : (rs : List Request) (st : SymbolTable) → AllSound st → AllSound (run rs st).1
unfolding run
run-AllSound [] st h = h
run-AllSound (r ∷ rs) st h = run-AllSound rs _ (perform-AllSound r st h)

run_from :
    (rs : List Request) (st : SymbolTable)
    → AllSound st
    → ((run rs st).0 ≡ (run_specified rs (view st)).0)
      × (view (run rs st).1 ≡ (run_specified rs (view st)).1)
unfolding run run_specified
run_from [] st h = (refl, refl)
run_from (r ∷ rs) st h =
    let later = run_from rs (perform r st).1 (perform-AllSound r st h) in
    rw (← perform-reply r st h, ← perform-view r st h)
      (ap (λ l. (perform r st).0 ∷ l) later.0, later.1)

-- On every sequence of label definitions, binding declarations and external declarations to an
-- empty table, the replies are those of the map of symbols, and afterwards the table stands for the
-- state that this map has reached.
pub run-run_specified :
    (rs : List Request)
    → ((run rs symtable_init).0 ≡ (run_specified rs (λ _. absent)).0)
      × (view (run rs symtable_init).1 ≡ (run_specified rs (λ _. absent)).1)
run-run_specified rs = rw (← init-view) (run_from rs symtable_init init-AllSound)

-- What the lookups read off a symbol.
unfoldable pub label_of : Symbol → Option (ℤ × SymbolSection)
label_of (defined o s b x) = some (o, s)
label_of _ = none

unfoldable pub binding_of : Symbol → Option SymbolBinding
binding_of (defined o s b x) = some b
binding_of _ = none

unfoldable pub is_external_symbol : Symbol → Bool
is_external_symbol external = true
is_external_symbol _ = false

lookups_of :
    (found : Option SymEntry)
    → (elim found [
      | none ↦ none
      | some e ↦ if not e.defined then none else some (e.offset, e.section)
    ]
        ≡ label_of (symbol_of found))
      × (elim found [ none ↦ none | some e ↦ if not e.defined then none else some e.binding ]
          ≡ binding_of (symbol_of found))
      × (elim found [ none ↦ false | some e ↦ e.external_declared && not e.defined ]
          ≡ is_external_symbol (symbol_of found))
unfolding symbol_of label_of binding_of is_external_symbol
lookups_of none = (refl, refl, refl)
lookups_of (some e) = ground arith

-- The three lookups depend on the symbol that the name stands for and on nothing else: the label is
-- the offset and the section of a defined symbol, the binding is its binding, and a symbol is
-- external when it was declared so.
pub lookups_lem :
    (st : SymbolTable) (name : Name)
    → (symtable_lookup_ex st name ≡ label_of (view st name))
      × (symtable_lookup_binding st name ≡ binding_of (view st name))
      × (symtable_is_external st name ≡ is_external_symbol (view st name))
unfolding symtable_lookup_ex symtable_lookup_binding symtable_is_external view
lookups_lem st name = lookups_of (find_entry st name)
