-- ===== src/Passes/Tables.antt =====
-- The symbol table during the first pass of passes/pass1.c: a line makes at most one request, so the
-- labels that are there stay, and an accepted label stands where its line was laid.
use nazm.Prelude.{
  ◌≡◌, refl, Bool, true, false, not, List, [], ◌∷◌, Option, none, some, if◌then◌else◌, ℤ, arith,
}
use nazm.Encoder.Operands.{Operand, Text}
use nazm.Symtable.{Name, SymbolSection, SymbolBinding, SymbolTable}
use nazm.Symtable.Symbols.{Request, insert_section, declare_binding, declare_external, view}
use nazm.Symtable.Effects.{perform}
use nazm.Symtable.Refinement.{AllSound, label_of, perform-view, perform-AllSound}
use nazm.Symtable.Labels.{specified-label}
use nazm.Passes.Instruction.{DirectiveKind, Instruction}
use nazm.Passes.Data.{DataError, is_data_directive, validate_data_directive}
use nazm.Passes.Debug.{DebugError, DebugFile}
use nazm.Passes.Offsets.{pass1_note_alignment}
use nazm.Passes.Reports.{Pass1Error}
use nazm.Passes.First.{
  Pass1State, after_request, after_file, after_location, enter_label, after_validation, lay_data,
  data_line, external_line, visibility_line, instruction_line, pass1_line, pass1_step, pass1_loop,
}

-- The labels of a table are those of the other, at the same places.
pub record Keeps (table next : SymbolTable) : Type 0 where
  pub sound : AllSound table → AllSound next
  pub labels :
      AllSound table
      → (name : Name) (p : ℤ × SymbolSection) → label_of (view table name) ≡ some p
      → label_of (view next name) ≡ some p

Keeps-refl : (table : SymbolTable) → Keeps table table
Keeps-refl table = record { sound = λ s. s; labels = λ s name p h. h }

Keeps-trans : (a b c : SymbolTable) → Keeps a b → Keeps b c → Keeps a c
Keeps-trans a b c k l = record {
  sound = λ s. l.sound (k.sound s);
  labels = λ s name p h. l.labels (k.sound s) name p (k.labels s name p h);
}

perform-Keeps : (r : Request) (table : SymbolTable) → Keeps table (perform r table).1
perform-Keeps r table = record {
  sound = λ s. perform-AllSound r table s;
  labels = λ s name p h. rw (perform-view r table s) (specified-label r (view table) name p h);
}

pub after_request-symtable :
    (e : Pass1Error) (reply : Bool × SymbolTable) (st : Pass1State)
    → (after_request e reply st).symtable ≡ reply.1
unfolding after_request
after_request-symtable e (true, table) st = refl
after_request-symtable e (false, table) st = refl

if-Keeps :
    (c : Bool) (table : SymbolTable) (x y : Pass1State)
    → Keeps table x.symtable
    → Keeps table y.symtable
    → Keeps table (if c then x else y).symtable
if-Keeps true table x y p q = p
if-Keeps false table x y p q = q

request-Keeps :
    (e : Pass1Error) (r : Request) (st : Pass1State)
    → Keeps st.symtable (after_request e (perform r st.symtable) st).symtable
request-Keeps e r st =
    rw (after_request-symtable e (perform r st.symtable) st) (perform-Keeps r st.symtable)

label-Keeps :
    (label : Option Text) (st : Pass1State) → Keeps st.symtable (enter_label label st).symtable
unfolding enter_label perform
label-Keeps none st = Keeps-refl st.symtable
label-Keeps (some name) st = request-Keeps _ (insert_section name st.current_section _) st

external-Keeps :
    (ops : List Operand) (st : Pass1State) → Keeps st.symtable (external_line ops st).symtable
unfolding external_line perform
external-Keeps (Operand.label name ∷ []) st = request-Keeps _ (declare_external name) st
external-Keeps _ st = Keeps-refl st.symtable

visibility-Keeps :
    (binding : SymbolBinding) (ops : List Operand) (st : Pass1State)
    → Keeps st.symtable (visibility_line binding ops st).symtable
unfolding visibility_line perform
visibility-Keeps binding (Operand.label name ∷ []) st =
    request-Keeps _ (declare_binding name binding) st
visibility-Keeps binding _ st = Keeps-refl st.symtable

file-Keeps :
    (result : List DebugFile × Option DebugError) (st : Pass1State)
    → Keeps st.symtable (after_file result st).symtable
unfolding after_file
file-Keeps (files, none) st = Keeps-refl st.symtable
file-Keeps (files, some e) st = Keeps-refl st.symtable

location-Keeps :
    (result : Option DebugError) (st : Pass1State)
    → Keeps st.symtable (after_location result st).symtable
unfolding after_location
location-Keeps none st = Keeps-refl st.symtable
location-Keeps (some e) st = Keeps-refl st.symtable

module _ (i : Instruction) (st : Pass1State) where
  -- The line of a data directive leaves the table, or enters its label.
  pub lay_data-symtable :
      (kind : DirectiveKind)
      → (lay_data kind i st).symtable
        ≡ (enter_label i.label (record st {
          alignments = pass1_note_alignment st.current_section kind i.ops st.alignments;
        })).symtable
  unfolding lay_data
  lay_data-symtable kind = refl

  validated-Keeps :
      (result : Option DataError) (kind : DirectiveKind)
      → Keeps st.symtable (after_validation result kind i st).symtable
  unfolding after_validation
  validated-Keeps none kind =
      let noted = pass1_note_alignment st.current_section kind i.ops st.alignments in
      if-Keeps _ st.symtable _ (lay_data kind i st) (Keeps-refl st.symtable)
        (rw (lay_data-symtable kind) (label-Keeps i.label (record st { alignments = noted })))
  validated-Keeps (some e) kind = Keeps-refl st.symtable

  data_line-Keeps : (kind : DirectiveKind) → Keeps st.symtable (data_line kind i st).symtable
  unfolding data_line
  data_line-Keeps kind =
      if-Keeps (not (is_data_directive kind)) st.symtable _ _ (Keeps-refl st.symtable) (
        if-Keeps _ st.symtable _ _ (Keeps-refl st.symtable)
          (validated-Keeps (validate_data_directive kind i.ops) kind))

  pub instruction_line-symtable :
      (instruction_line i st).symtable ≡ (enter_label i.label st).symtable
  unfolding instruction_line
  instruction_line-symtable = ground arith

  line-Keeps : (kind : DirectiveKind) → Keeps st.symtable (pass1_line kind i st).symtable
  unfolding pass1_line
  line-Keeps DirectiveKind.none = rw instruction_line-symtable (label-Keeps i.label st)
  line-Keeps DirectiveKind.text = Keeps-refl st.symtable
  line-Keeps DirectiveKind.data_section = Keeps-refl st.symtable
  line-Keeps DirectiveKind.read_only_data = Keeps-refl st.symtable
  line-Keeps DirectiveKind.bss = Keeps-refl st.symtable
  line-Keeps DirectiveKind.external = external-Keeps i.ops st
  line-Keeps DirectiveKind.global = visibility-Keeps SymbolBinding.global i.ops st
  line-Keeps DirectiveKind.local = visibility-Keeps SymbolBinding.local i.ops st
  line-Keeps DirectiveKind.debug_file = file-Keeps _ st
  line-Keeps DirectiveKind.debug_file_bytes = file-Keeps _ st
  line-Keeps DirectiveKind.debug_location = location-Keeps _ st
  line-Keeps DirectiveKind.int8 = data_line-Keeps DirectiveKind.int8
  line-Keeps DirectiveKind.int16 = data_line-Keeps DirectiveKind.int16
  line-Keeps DirectiveKind.int32 = data_line-Keeps DirectiveKind.int32
  line-Keeps DirectiveKind.int64 = data_line-Keeps DirectiveKind.int64
  line-Keeps DirectiveKind.alignment = data_line-Keeps DirectiveKind.alignment
  line-Keeps DirectiveKind.zero_space = data_line-Keeps DirectiveKind.zero_space
  line-Keeps DirectiveKind.nul_string = data_line-Keeps DirectiveKind.nul_string
  line-Keeps DirectiveKind.invalid = data_line-Keeps DirectiveKind.invalid

  pub step-Keeps : Keeps st.symtable (pass1_step i st).symtable
  unfolding pass1_step
  step-Keeps = line-Keeps i.directive_kind

pub loop-Keeps :
    (is : List Instruction) (st : Pass1State) → Keeps st.symtable (pass1_loop is st).symtable
unfolding pass1_loop
loop-Keeps [] st = Keeps-refl st.symtable
loop-Keeps (i ∷ is) st =
    Keeps-trans st.symtable (pass1_step i st).symtable _ (step-Keeps i st)
      (loop-Keeps is (pass1_step i st))
