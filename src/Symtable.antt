-- ===== src/Symtable.antt =====
-- The symbol table of symtable/symtable.c: 256 chains of entries, picked by a hash of the name. A
-- name is a C string, the list of its bytes; the arena gives zeroed memory and copies the name, so
-- an entry is a value, and the bucket array a function from its index.
pub mod Symbols
mod Chains
pub mod Effects
pub mod WellFormed
pub mod Refinement
pub mod Labels
mod Examples
use nazm.Prelude.{
  same_bytes, ℕ, ◌*◌, ◌%◌, ◌^◌, suc, bit_xor, Bool, true, false, ◌&&◌, ◌||◌, not, List, [], ◌∷◌,
  Option, none, some, ◌==◌, if◌then◌else◌, ℤ, pos,
}

-- A C string, as its bytes.
abbrev pub Name : Type 0
Name = List ℕ

pub data SymbolSection : Type 0 where
  unknown text data_section read_only_data bss : SymbolSection

pub data SymbolBinding : Type 0 where
  local global : SymbolBinding

abbrev pub same_binding : SymbolBinding → SymbolBinding → Bool
same_binding local local = true
same_binding global global = true
same_binding _ _ = false

pub record SymEntry : Type 0 where
  pub name : Name
  pub offset : ℤ
  pub section : SymbolSection
  pub binding : SymbolBinding
  pub defined : Bool
  pub binding_declared : Bool
  pub external_declared : Bool

-- The entry's `next` field is the rest of its chain.
pub record SymbolTable : Type 0 where
  pub buckets : ℕ → List SymEntry
  pub count : ℕ

abbrev pub symtable_buckets : ℕ
symtable_buckets = 256

-- FNV-1a on 32 bits, from the state `h`.
unfoldable pub hash_from : ℕ → Name → ℕ
hash_from h [] = h
hash_from h (c ∷ s) = hash_from (bit_xor h c * 1677_7619 % 2 ^ 32) s

unfoldable pub bucket_of : Name → ℕ
unfolding hash_from
bucket_of name = hash_from 21_6613_6261 name % symtable_buckets

-- The loop of `find_entry` over a chain.
unfoldable pub find_in : List SymEntry → Name → Option SymEntry
find_in [] name = none
find_in (e ∷ es) name =
    let rest = find_in es name in if same_bytes e.name name then some e else rest

unfoldable pub find_entry : SymbolTable → Name → Option SymEntry
find_entry st name = find_in (st.buckets (bucket_of name)) name

-- A store through the pointer that `find_entry` gave: the first entry of the name becomes `e`.
unfoldable pub store_in : List SymEntry → Name → SymEntry → List SymEntry
store_in [] name e = []
store_in (x ∷ es) name e =
    let rest = store_in es name e in if same_bytes x.name name then e ∷ es else x ∷ rest

abbrev pub set_bucket : (ℕ → List SymEntry) → ℕ → List SymEntry → ℕ → List SymEntry
set_bucket buckets idx chain i = if i == idx then chain else buckets i

unfoldable pub store : SymbolTable → Name → SymEntry → SymbolTable
store st name e =
    let idx = bucket_of name in
    record st { buckets = set_bucket st.buckets idx (store_in (st.buckets idx) name e) }

-- A new entry at the head of its chain.
unfoldable pub push_entry : SymbolTable → SymEntry → SymbolTable
push_entry st e =
    let idx = bucket_of e.name in
    record { buckets = set_bucket st.buckets idx (e ∷ st.buckets idx); count = suc st.count }

unfoldable pub symtable_init : SymbolTable
symtable_init = record { buckets = λ _. []; count = 0 }

-- What `ARENA_ALLOC` and the copy of the name give.
unfoldable pub fresh : Name → SymEntry
fresh name = record {
  name = name;
  offset = pos 0;
  section = unknown;
  binding = local;
  defined = false;
  binding_declared = false;
  external_declared = false;
}

unfoldable pub symtable_insert_section : SymbolTable → Name → SymbolSection → ℤ → Bool × SymbolTable
symtable_insert_section st name section offset = elim (find_entry st name) [
  | some e ↦
      if e.defined || e.external_declared
      then (false, st)
      else (true, store st name (record e { offset = offset; section = section; defined = true }))
  | none ↦ (
    true,
    push_entry st (record (fresh name) {
      offset = offset;
      section = section;
      binding = local;
      defined = true;
    }),
  )
]

unfoldable pub symtable_insert : SymbolTable → Name → ℤ → Bool × SymbolTable
symtable_insert st name offset = symtable_insert_section st name text offset

unfoldable pub symtable_declare_binding : SymbolTable → Name → SymbolBinding → Bool × SymbolTable
symtable_declare_binding st name binding = elim (find_entry st name) [
  | none ↦ (
    true,
    push_entry st
        (record (fresh name) { section = unknown; binding = binding; binding_declared = true }),
  )
  | some e ↦
      if e.binding_declared && not (same_binding e.binding binding)
      then (false, st)
      else (true, store st name (record e { binding = binding; binding_declared = true }))
]

unfoldable pub symtable_declare_external : SymbolTable → Name → Bool × SymbolTable
symtable_declare_external st name = elim (find_entry st name) [
  | none ↦ (
    true,
    push_entry st (record (fresh name) {
      section = unknown;
      binding = global;
      binding_declared = true;
      external_declared = true;
    }),
  )
  | some e ↦
      if e.defined || (e.binding_declared && not (same_binding e.binding global))
      then (false, st)
      else (
        true,
        store st name (record e {
          section = unknown;
          binding = global;
          binding_declared = true;
          external_declared = true;
        }),
      )
]

unfoldable pub symtable_is_external : SymbolTable → Name → Bool
symtable_is_external st name = elim (find_entry st name) [
  | none ↦ false
  | some e ↦ e.external_declared && not e.defined
]

-- The out parameters are the value of the result.
unfoldable pub symtable_lookup_ex : SymbolTable → Name → Option (ℤ × SymbolSection)
symtable_lookup_ex st name = elim (find_entry st name) [
  | none ↦ none
  | some e ↦ if not e.defined then none else some (e.offset, e.section)
]

unfoldable pub symtable_lookup : SymbolTable → Name → Option ℤ
symtable_lookup st name = elim (symtable_lookup_ex st name) [ none ↦ none | some p ↦ some p.0 ]

unfoldable pub symtable_lookup_binding : SymbolTable → Name → Option SymbolBinding
symtable_lookup_binding st name = elim (find_entry st name) [
  | none ↦ none
  | some e ↦ if not e.defined then none else some e.binding
]

unfoldable pub symtable_patch : SymbolTable → Name → ℤ → Bool × SymbolTable
symtable_patch st name offset = elim (find_entry st name) [
  | none ↦ (false, st)
  | some e ↦ (true, store st name (record e { offset = offset; defined = true }))
]
