-- ===== src/Symtable/Effects.antt =====
-- What one operation of symtable/symtable.c does: it carries out the transition of its name, and no
-- other name is touched.
use nazm.Prelude.{
  Option-cases, ◌≡◌, ℤ, refl, sym, ap, ◌∙◌, Bool, true, false, ◌&&◌, ◌||◌, not, Option, none, some,
  Bool-cases, if◌then◌else◌, inl, inr, arith,
}
use nazm.Prelude.{same_bytes}
use nazm.Symtable.{
  Name, SymbolSection, unknown, SymbolBinding, global, same_binding, SymEntry, SymbolTable,
  find_entry, store, push_entry, fresh, symtable_insert_section, symtable_declare_binding,
  symtable_declare_external,
}
use nazm.Prelude.{same_bytes-≡}
use nazm.Symtable.Chains.{find_entry-name, find_entry-store, find_entry-push}
use nazm.Symtable.Symbols.{
  Symbol, absent, define, bind, declare, Request, insert_section, declare_binding, declare_external,
  subject, transition, symbol_of, view,
}

-- The request as the first pass makes it.
unfoldable pub perform : Request → SymbolTable → Bool × SymbolTable
perform (insert_section name section offset) st = symtable_insert_section st name section offset
perform (declare_binding name binding) st = symtable_declare_binding st name binding
perform (declare_external name) st = symtable_declare_external st name

-- An entry is defined or explicitly bound, and an external one is global and without a label.
unfoldable pub sound : SymEntry → Bool
sound e =
    (e.defined || e.binding_declared)
    && (not e.external_declared
        || (not e.defined && e.binding_declared && same_binding e.binding global))

abbrev pub sound_or_none : Option SymEntry → Bool
sound_or_none none = true
sound_or_none (some e) = sound e

-- What an operation did to the entry of one name: the reply and the entry afterwards.
pub record Effect (st : SymbolTable) (name : Name) (result : Bool × SymbolTable)
    (t : Symbol → Bool × Symbol) : Type 0 where
  pub after : Option SymEntry
  pub finds :
      (other : Name)
      → find_entry result.1 other ≡ (if same_bytes name other then after else find_entry st other)
  pub replies : result.0 ≡ (t (view st name)).0
  pub becomes : symbol_of after ≡ (t (view st name)).1
  pub is_sound : sound_or_none after ≡ true

-- The reply and the entry are those of the transition, and the entry is sound.
abbrev Agrees : Bool → SymEntry → Bool × Symbol → Type 0
Agrees reply e t = (reply ≡ t.0) × (symbol_of (some e) ≡ t.1) × (sound e ≡ true)

stored :
    (st : SymbolTable) (name : Name) (x e : SymEntry) (t : Symbol → Bool × Symbol)
    → find_entry st name ≡ some x
    → e.name ≡ x.name
    → Agrees true e (t (symbol_of (some x)))
    → Effect st name (true, store st name e) t
unfolding view
stored st name x e t h n a = record {
  after = some e;
  finds = λ other. find_entry-store st name other x e h (n ∙ find_entry-name st name x h);
  replies = rw h a.0;
  becomes = rw h a.1;
  is_sound = a.2;
}

pushed :
    (st : SymbolTable) (name : Name) (e : SymEntry) (t : Symbol → Bool × Symbol)
    → find_entry st name ≡ none
    → e.name ≡ name
    → Agrees true e (t absent)
    → Effect st name (true, push_entry st e) t
unfolding view symbol_of
pushed st name e t h n a = record {
  after = some e;
  finds = λ other. rw (← n) (find_entry-push st e other);
  replies = rw h a.0;
  becomes = rw h a.1;
  is_sound = a.2;
}

kept :
    (st : SymbolTable) (name : Name) (x : SymEntry) (t : Symbol → Bool × Symbol)
    → find_entry st name ≡ some x
    → Agrees false x (t (symbol_of (some x)))
    → Effect st name (false, st) t
unfolding view
kept st name x t h a = record {
  after = some x;
  finds = λ other. elim (Bool-cases (same_bytes name other)) [
    | inl same ↦ rw (same, ← same_bytes-≡ name other same) h
    | inr away ↦ rw away refl
  ];
  replies = rw h a.0;
  becomes = rw h a.1;
  is_sound = a.2;
}

module _ (e : SymEntry) (s : sound e ≡ true) where
  insert-kept :
      (section : SymbolSection) (offset : ℤ)
      → e.defined || e.external_declared ≡ true
      → Agrees false e (define section offset (symbol_of (some e)))
  unfolding sound define symbol_of
  insert-kept section offset taken = ground arith

  insert-stored :
      (section : SymbolSection) (offset : ℤ)
      → e.defined || e.external_declared ≡ false
      → Agrees true
          (record e { offset = offset; section = section; defined = true })
          (define section offset (symbol_of (some e)))
  unfolding sound define symbol_of
  insert-stored section offset free = ground arith

  bind-kept :
      (binding : SymbolBinding)
      → e.binding_declared && not (same_binding e.binding binding) ≡ true
      → Agrees false e (bind binding (symbol_of (some e)))
  unfolding sound bind symbol_of
  bind-kept binding taken = ground arith

  bind-stored :
      (binding : SymbolBinding)
      → e.binding_declared && not (same_binding e.binding binding) ≡ false
      → Agrees true
          (record e { binding = binding; binding_declared = true })
          (bind binding (symbol_of (some e)))
  unfolding sound bind symbol_of
  bind-stored binding free = ground arith

  declare-kept :
      e.defined || (e.binding_declared && not (same_binding e.binding global)) ≡ true
      → Agrees false e (declare (symbol_of (some e)))
  unfolding sound declare symbol_of
  declare-kept taken = ground arith

  declare-stored :
      e.defined || (e.binding_declared && not (same_binding e.binding global)) ≡ false
      → Agrees true
          (record e {
            section = unknown;
            binding = global;
            binding_declared = true;
            external_declared = true;
          })
          (declare (symbol_of (some e)))
  unfolding sound declare symbol_of
  declare-stored free = ground arith

module _ (st : SymbolTable) (name : Name) (h : sound_or_none (find_entry st name) ≡ true) where
  sound_entry : (e : SymEntry) → find_entry st name ≡ some e → sound e ≡ true
  sound_entry e f = ap sound_or_none (sym f) ∙ h

  insert-Effect :
      (section : SymbolSection) (offset : ℤ)
      → Effect st name (symtable_insert_section st name section offset) (define section offset)
  unfolding symtable_insert_section fresh define sound symbol_of
  insert-Effect section offset = elim (Option-cases (find_entry st name)) [
    | inl f ↦
        rw (symtable_insert_section, f)
          (pushed st name _ (define section offset) f refl (refl, refl, refl))
    | inr (e, f) ↦ elim (Bool-cases (e.defined || e.external_declared)) [
      | inl taken ↦
          rw (symtable_insert_section, f, taken)
            (kept st name e (define section offset) f
              (insert-kept e (sound_entry e f) section offset taken))
      | inr free ↦
          rw (symtable_insert_section, f, free)
            (stored st name e _ (define section offset) f refl
              (insert-stored e (sound_entry e f) section offset free))
    ]
  ]

  bind-Effect :
      (binding : SymbolBinding)
      → Effect st name (symtable_declare_binding st name binding) (bind binding)
  unfolding symtable_declare_binding fresh bind sound symbol_of
  bind-Effect binding = elim (Option-cases (find_entry st name)) [
    | inl f ↦
        rw (symtable_declare_binding, f) (pushed st name _ (bind binding) f refl (refl, refl, refl))
    | inr (e, f) ↦ elim (Bool-cases (e.binding_declared && not (same_binding e.binding binding))) [
      | inl taken ↦
          rw (symtable_declare_binding, f, taken)
            (kept st name e (bind binding) f (bind-kept e (sound_entry e f) binding taken))
      | inr free ↦
          rw (symtable_declare_binding, f, free)
            (stored st name e _ (bind binding) f refl
              (bind-stored e (sound_entry e f) binding free))
    ]
  ]

  declare-Effect : Effect st name (symtable_declare_external st name) declare
  unfolding symtable_declare_external fresh declare sound symbol_of
  declare-Effect = elim (Option-cases (find_entry st name)) [
    | inl f ↦ rw (symtable_declare_external, f) (pushed st name _ declare f refl (refl, refl, refl))
    | inr (e, f) ↦
        elim (Bool-cases
          (e.defined || (e.binding_declared && not (same_binding e.binding global)))) [
            | inl taken ↦
                rw (symtable_declare_external, f, taken)
                  (kept st name e declare f (declare-kept e (sound_entry e f) taken))
            | inr free ↦
                rw (symtable_declare_external, f, free)
                  (stored st name e _ declare f refl (declare-stored e (sound_entry e f) free))
          ]
  ]

pub perform-Effect :
    (r : Request) (st : SymbolTable)
    → sound_or_none (find_entry st (subject r)) ≡ true
    → Effect st (subject r) (perform r st) (transition r)
unfolding perform
perform-Effect (insert_section name section offset) st h = insert-Effect st name h section offset
perform-Effect (declare_binding name binding) st h = bind-Effect st name h binding
perform-Effect (declare_external name) st h = declare-Effect st name h
