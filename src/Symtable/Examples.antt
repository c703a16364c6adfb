-- ===== src/Symtable/Examples.antt =====
-- The symbol table's theorems at a label that is bound and then defined, and runs of the table.
use nazm.Prelude.{◌≡◌, refl, Bool, true, false, List, [], ◌∷◌, Option, some, ℤ, pos}
use nazm.Prelude.{same_bytes}
use nazm.Symtable.{
  Name, SymbolSection, text, local, global, hash_from, bucket_of, find_in, find_entry, store_in,
  store, push_entry, fresh, symtable_init, symtable_insert_section, symtable_declare_binding,
  symtable_declare_external, symtable_is_external, symtable_lookup_ex, symtable_lookup_binding,
  symtable_patch,
}
use nazm.Symtable.Symbols.{Request, absent, insert_section, declare_binding, declare_external, view}
use nazm.Symtable.Effects.{perform}
use nazm.Symtable.Refinement.{
  run, run_specified, label_of, binding_of, is_external_symbol, run-run_specified, lookups_lem,
}
use nazm.Symtable.Labels.{lookup_stable}
use nazm.Symtable.WellFormed.{IsWellFormed, init-IsWellFormed, operations-IsWellFormed}

abbrev main_label : Name
main_label = 0xD8 ∷ 0xA3 ∷ []

-- The label is bound, defined, defined again, bound otherwise and declared external.
abbrev requests : List Request
requests =
    declare_binding main_label global
    ∷ insert_section main_label text (pos 16)
    ∷ insert_section main_label text (pos 32)
    ∷ declare_binding main_label local
    ∷ declare_external main_label
    ∷ []

replies : List Bool
unfolding run perform symtable_insert_section symtable_declare_binding symtable_declare_external
    find_entry find_in store store_in push_entry fresh bucket_of hash_from same_bytes symtable_init
replies = (run requests symtable_init).0

replies_lem : replies ≡ true ∷ true ∷ false ∷ false ∷ false ∷ []
unfolding replies
replies_lem = refl

found : Option (ℤ × SymbolSection)
unfolding replies symtable_lookup_ex
found = symtable_lookup_ex (run requests symtable_init).1 main_label

found_lem : found ≡ some (pos 16, text)
unfolding found
found_lem = refl

run-run_specified_example :
    ((run requests symtable_init).0 ≡ (run_specified requests (λ _. absent)).0)
    × (view (run requests symtable_init).1 ≡ (run_specified requests (λ _. absent)).1)
run-run_specified_example = run-run_specified requests

lookups_lem_example :
    (symtable_lookup_ex symtable_init main_label ≡ label_of (view symtable_init main_label))
    × (symtable_lookup_binding symtable_init main_label
        ≡ binding_of (view symtable_init main_label))
    × (symtable_is_external symtable_init main_label
        ≡ is_external_symbol (view symtable_init main_label))
lookups_lem_example = lookups_lem symtable_init main_label

lookup_stable_example :
    symtable_lookup_ex (run requests (run requests symtable_init).1).1 main_label
    ≡ some (pos 16, text)
unfolding found
lookup_stable_example = lookup_stable requests requests main_label (pos 16, text) refl

operations-IsWellFormed_example :
    IsWellFormed (perform (declare_external main_label) symtable_init).1
    × IsWellFormed (symtable_patch symtable_init main_label (pos 4)).1
operations-IsWellFormed_example =
    operations-IsWellFormed symtable_init (declare_external main_label) main_label (pos 4)
      init-IsWellFormed
