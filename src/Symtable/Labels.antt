-- ===== src/Symtable/Labels.antt =====
-- A label in the table of symtable/symtable.c never moves.
use nazm.Prelude.{◌≡◌, sym, ◌∙◌, true, false, List, [], ◌∷◌, some, Bool-cases, inl, inr, ℤ, arith}
use nazm.Prelude.{same_bytes}
use nazm.Symtable.{Name, SymbolSection, SymbolTable, symtable_init, symtable_lookup_ex}
use nazm.Prelude.{same_bytes-≡}
use nazm.Symtable.Symbols.{
  Symbol, absent, declared, external, defined, define, bind, declare, Request, insert_section,
  declare_binding, declare_external, Symbols, subject, transition, specified, view,
}
use nazm.Symtable.Refinement.{
  run, AllSound, init-AllSound, run-AllSound, perform-view, perform-AllSound, label_of, lookups_lem,
}

transition-label :
    (r : Request) (s : Symbol) (p : ℤ × SymbolSection)
    → label_of s ≡ some p
    → label_of (transition r s).1 ≡ some p
unfolding label_of define bind declare
transition-label (insert_section name section offset) (defined o t b x) p h = h
transition-label (declare_binding name binding) (defined o t b true) p h = h
transition-label (declare_binding name binding) (defined o t b false) p h = h
transition-label (declare_external name) (defined o t b x) p h = h
transition-label r absent p h = absurd (ground arith)
transition-label r (declared b) p h = absurd (ground arith)
transition-label r external p h = absurd (ground arith)

pub specified-label :
    (r : Request) (symbols : Symbols) (name : Name) (p : ℤ × SymbolSection)
    → label_of (symbols name) ≡ some p
    → label_of ((specified r symbols).1 name) ≡ some p
unfolding specified
specified-label r symbols name p h = elim (Bool-cases (same_bytes (subject r) name)) [
  | inl same ↦ rw same (transition-label r _ p (rw (same_bytes-≡ (subject r) name same) h))
  | inr away ↦ rw away h
]

run-label :
    (rs : List Request) (st : SymbolTable) (name : Name) (p : ℤ × SymbolSection)
    → AllSound st
    → label_of (view st name) ≡ some p
    → label_of (view (run rs st).1 name) ≡ some p
unfolding run
run-label [] st name p s h = h
run-label (r ∷ rs) st name p s h =
    run-label rs _ name p (perform-AllSound r st s)
      (rw (perform-view r st s) (specified-label r (view st) name p h))

-- Once a lookup finds a label in a table that requests have built, it finds the same offset and the
-- same section after any further requests.
pub lookup_stable :
    (rs later : List Request) (name : Name) (p : ℤ × SymbolSection)
    → symtable_lookup_ex (run rs symtable_init).1 name ≡ some p
    → symtable_lookup_ex (run later (run rs symtable_init).1).1 name ≡ some p
lookup_stable rs later name p h =
    let st = (run rs symtable_init).1 in
    (lookups_lem _ name).0
    ∙ run-label later st name p (run-AllSound rs _ init-AllSound) (sym (lookups_lem st name).0 ∙ h)
