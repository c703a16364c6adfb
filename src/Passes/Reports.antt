-- ===== src/Passes/Reports.antt =====
-- The errors of passes/pass1.c, and the checks after its loop: visibility directives of names that
-- never became labels, and locations in undeclared files. An error is the message and its names,
-- without the span.
use nazm.Prelude.{
  ℕ, zero, suc, ◌+◌, ◌||◌, not, List, [], ◌∷◌, Option, none, some, if◌then◌else◌, same_bytes,
}
use nazm.Encoder.Operands.{Operand, Text}
use nazm.Symtable.{SymEntry, SymbolTable, symtable_buckets}
use nazm.Passes.Instruction.{DirectiveKind, Instruction}
use nazm.Passes.Data.{DataError}
use nazm.Passes.Debug.{DebugError}

pub data Pass1Error : Type 0 where
  external_operands binding_operands : Pass1Error
  external_conflict binding_conflict label_repeated visibility_undefined : Text → Pass1Error
  directive_unknown data_outside_section space_section_restricted : Pass1Error
  data_rejected : DataError → Pass1Error
  debug_rejected : DebugError → Pass1Error

-- The name that a visibility directive of one label binds.
abbrev pub visibility_name : DirectiveKind → List Operand → Option Text
visibility_name DirectiveKind.global (Operand.label name ∷ []) = some name
visibility_name DirectiveKind.local (Operand.label name ∷ []) = some name
visibility_name _ _ = none

-- The first directive that binds the name reports it.
unfoldable pub report_binding : List Instruction → Text → List Pass1Error → List Pass1Error
report_binding [] name errors = errors
report_binding (i ∷ is) name errors =
    let rest = report_binding is name errors in
    elim (visibility_name i.directive_kind i.ops) [
      | none ↦ rest
      | some bound ↦
          if not (same_bytes bound name)
          then rest
          else Pass1Error.visibility_undefined name ∷ errors
    ]

-- The entries of one chain.
unfoldable pub report_chain : List Instruction → List SymEntry → List Pass1Error → List Pass1Error
report_chain is [] errors = errors
report_chain is (e ∷ es) errors = report_chain is es (
    if e.defined || e.external_declared || not e.binding_declared
    then errors
    else report_binding is e.name errors)

-- The chains from `bucket` on, with `rounds` left.
unfoldable pub report_buckets :
    List Instruction → (ℕ → List SymEntry) → ℕ → ℕ → List Pass1Error → List Pass1Error
report_buckets is buckets zero bucket errors = errors
report_buckets is buckets (suc rounds) bucket errors =
    report_buckets is buckets rounds (bucket + 1) (report_chain is (buckets bucket) errors)

unfoldable pub report_undefined_visibility_symbols :
    List Instruction → SymbolTable → List Pass1Error → List Pass1Error
unfolding report_buckets report_chain report_binding
report_undefined_visibility_symbols is symtable errors =
    report_buckets is symtable.buckets symtable_buckets 0 errors

-- The errors of the undeclared files, which are all the same, in front of the others.
abbrev pub report_locations : List DebugError → List Pass1Error → List Pass1Error
report_locations [] errors = errors
report_locations (e ∷ es) errors = Pass1Error.debug_rejected e ∷ report_locations es errors
