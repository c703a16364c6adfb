-- ===== src/Passes/Placed.antt =====
-- A label of passes/pass1.c stands where its line was laid: at the offset of the line in its section.
use mathlib.Core.Option.{some-injective}
use nazm.Prelude.{
  ℕ, ◌^◌, ◌≡◌, refl, sym, ap, ◌∙◌, Bool, true, false, List, [], ◌∷◌, some, ℤ, pos, of_bits,
  same_bytes_refl, suc, ◌*◌, zero, length, get_elem?, arith,
}
use nazm.Encoder.Operands.{Text}
use nazm.Symtable.{Name, SymbolSection, SymbolTable}
use nazm.Symtable.Symbols.{
  Symbol, absent, declared, external, defined, define, insert_section, specified, view,
}
use nazm.Symtable.Effects.{perform}
use nazm.Symtable.Refinement.{AllSound, label_of, perform-view, perform-reply}
use nazm.Passes.Instruction.{DirectiveKind, Instruction, AllParsed}
use nazm.Passes.Data.{is_data_directive}
use nazm.Passes.Offsets.{Offsets, pass1_section_offset, pass1_note_alignment}
use nazm.Passes.Reports.{Pass1Error}
use nazm.Passes.First.{
  Pass1State, after_request, enter_label, lay_data, data_line, instruction_line, pass1_line,
  pass1_step, pass1_loop,
}
use nazm.Passes.Output.{EmissionSpan, emission_section}
use nazm.Passes.Tables.{after_request-symtable, instruction_line-symtable, step-Keeps, loop-Keeps}
use nazm.Passes.Layout.{HasRoom}
use nazm.Passes.Layout.Walk.{instruction_line-labelled, data_line-Accepts, data_line-lay_data}
use nazm.Passes.Layout.Quiet.{loop-quiet}
use nazm.Passes.Layout.Steps.{step-HasRoom}
use nazm.Passes.Layout.Program.{placement, placements}

-- The lines whose label the pass enters: instructions, labels alone, and data directives.
abbrev pub takes_label : DirectiveKind → Bool
takes_label DirectiveKind.none = true
takes_label kind = is_data_directive kind

defined-label :
    (section : SymbolSection) (offset : ℤ) (s : Symbol)
    → (define section offset s).0 ≡ true
    → label_of (define section offset s).1 ≡ some (offset, section)
unfolding define label_of
defined-label section offset absent h = refl
defined-label section offset (declared b) h = refl
defined-label section offset external h = absurd (ground arith)
defined-label section offset (defined o t b x) h = absurd (ground arith)

-- A label that is inserted is found at its place.
insert-label :
    (table : SymbolTable) (name : Name) (section : SymbolSection) (offset : ℤ)
    → AllSound table
    → (perform (insert_section name section offset) table).0 ≡ true
    → label_of (view (perform (insert_section name section offset) table).1 name)
      ≡ some (offset, section)
unfolding specified
insert-label table name section offset sound accepted =
    let r = insert_section name section offset in
    let replied = sym (perform-reply r table sound) ∙ accepted in
    rw (perform-view r table sound, same_bytes_refl name)
      (defined-label section offset (view table name) replied)

request-accepted :
    (e : Pass1Error) (reply : Bool × SymbolTable) (st : Pass1State)
    → (after_request e reply st).errors ≡ []
    → reply.0 ≡ true
unfolding after_request
request-accepted e (true, table) st h = refl
request-accepted e (false, table) st h = absurd (ground arith)

entered-label :
    (name : Text) (st : Pass1State)
    → AllSound st.symtable
    → (enter_label (some name) st).errors ≡ []
    → label_of (view (enter_label (some name) st).symtable name)
      ≡ some (of_bits 64 (pass1_section_offset st.current_section st.offsets), st.current_section)
unfolding enter_label perform
entered-label name st sound h =
    let e = Pass1Error.label_repeated name in
    let section = st.current_section in
    let offset = of_bits 64 (pass1_section_offset section st.offsets) in
    let reply = perform (insert_section name section offset) st.symtable in
    rw (after_request-symtable e reply st)
      (insert-label st.symtable name section offset sound (request-accepted e reply st h))

module _ (i : Instruction) (name : Text) (named : i.label ≡ some name) (st : Pass1State)
    (sound : AllSound st.symtable) where
  abbrev Placed : SymbolTable → Type 0
  Placed table =
      label_of (view table name)
      ≡ some (of_bits 64 (pass1_section_offset st.current_section st.offsets), st.current_section)

  data-Placed :
      (kind : DirectiveKind)
      → (data_line kind i st).errors ≡ []
      → Placed (data_line kind i st).symtable
  unfolding lay_data
  data-Placed kind h =
      let laid = data_line-lay_data kind i st (data_line-Accepts kind i st h) in
      let noted = record st {
        alignments = pass1_note_alignment st.current_section kind i.ops st.alignments;
      } in
      let quiet : (lay_data kind i st).errors ≡ [] = rw laid at h in
      rw (laid, named) (entered-label name noted sound (rw named at quiet))

  code-Placed : (instruction_line i st).errors ≡ [] → Placed (instruction_line i st).symtable
  code-Placed h =
      let quiet = instruction_line-labelled i st h in
      rw (instruction_line-symtable i st, named) (entered-label name st sound (rw named at quiet))

  line-Placed :
      (kind : DirectiveKind)
      → takes_label kind ≡ true
      → (pass1_line kind i st).errors ≡ []
      → Placed (pass1_line kind i st).symtable
  unfolding pass1_line is_data_directive
  line-Placed DirectiveKind.none takes h = code-Placed h
  line-Placed DirectiveKind.int8 takes h = data-Placed DirectiveKind.int8 h
  line-Placed DirectiveKind.int16 takes h = data-Placed DirectiveKind.int16 h
  line-Placed DirectiveKind.int32 takes h = data-Placed DirectiveKind.int32 h
  line-Placed DirectiveKind.int64 takes h = data-Placed DirectiveKind.int64 h
  line-Placed DirectiveKind.alignment takes h = data-Placed DirectiveKind.alignment h
  line-Placed DirectiveKind.zero_space takes h = data-Placed DirectiveKind.zero_space h
  line-Placed DirectiveKind.nul_string takes h = data-Placed DirectiveKind.nul_string h
  line-Placed DirectiveKind.text takes h = absurd (ground arith)
  line-Placed DirectiveKind.data_section takes h = absurd (ground arith)
  line-Placed DirectiveKind.read_only_data takes h = absurd (ground arith)
  line-Placed DirectiveKind.bss takes h = absurd (ground arith)
  line-Placed DirectiveKind.global takes h = absurd (ground arith)
  line-Placed DirectiveKind.local takes h = absurd (ground arith)
  line-Placed DirectiveKind.external takes h = absurd (ground arith)
  line-Placed DirectiveKind.debug_file takes h = absurd (ground arith)
  line-Placed DirectiveKind.debug_file_bytes takes h = absurd (ground arith)
  line-Placed DirectiveKind.debug_location takes h = absurd (ground arith)
  line-Placed DirectiveKind.invalid takes h = absurd (ground arith)

section_kept :
    (kind : DirectiveKind) (section : SymbolSection)
    → takes_label kind ≡ true
    → emission_section kind section ≡ section
unfolding is_data_directive
section_kept DirectiveKind.text section h = absurd (ground arith)
section_kept DirectiveKind.data_section section h = absurd (ground arith)
section_kept DirectiveKind.read_only_data section h = absurd (ground arith)
section_kept DirectiveKind.bss section h = absurd (ground arith)
section_kept _ section h = refl

-- The offset of a section is the value that an `int64_t` has.
offset-exact :
    (section : SymbolSection) (left : ℕ) (o : Offsets)
    → HasRoom (left * 2 ^ 31) o
    → of_bits 64 (pass1_section_offset section o) ≡ pos (pass1_section_offset section o)
offset-exact SymbolSection.text left o room = ground arith
offset-exact SymbolSection.data_section left o room = ground arith
offset-exact SymbolSection.read_only_data left o room = ground arith
offset-exact SymbolSection.bss left o room = ground arith
offset-exact SymbolSection.unknown left o room = ground arith

-- The label of the line stands at the line's span.
step-placed :
    (i : Instruction) (name : Text) (left : ℕ) (st : Pass1State)
    → i.label ≡ some name
    → takes_label i.directive_kind ≡ true
    → AllSound st.symtable
    → HasRoom (left * 2 ^ 31) st.offsets
    → (pass1_step i st).errors ≡ []
    → label_of (view (pass1_step i st).symtable name)
      ≡ some (pos (placement i st).offset, (placement i st).section)
unfolding pass1_step
step-placed i name left st named takes sound room h =
    let section = st.current_section in
    let placed = line-Placed i name named st sound i.directive_kind takes h in
    let exact = offset-exact section left st.offsets room in
    rw (section_kept i.directive_kind section takes) (placed ∙ ap (λ o. some (o, section)) exact)

pub loop-placed :
    (is : List Instruction) (st : Pass1State) (k : ℕ) (i : Instruction) (name : Text)
    → AllParsed is
    → HasRoom (length is * 2 ^ 31) st.offsets
    → AllSound st.symtable
    → (pass1_loop is st).errors ≡ []
    → get_elem? is k ≡ some i
    → i.label ≡ some name
    → takes_label i.directive_kind ≡ true
    → (e : EmissionSpan) × (get_elem? (placements is st) k ≡ some e)
      × (label_of (view (pass1_loop is st).symtable name) ≡ some (pos e.offset, e.section))
unfolding pass1_loop
loop-placed [] st k i name parsed room sound h at_k named takes = absurd (ground arith)
loop-placed (j ∷ is) st zero i name (p, ps) room sound h at_k named takes =
    let quiet = loop-quiet is (pass1_step j st) h in
    let same = some-injective j i at_k in
    let j_named = ap (λ (x : Instruction). x.label) same ∙ named in
    let j_takes = ap (λ (x : Instruction). takes_label x.directive_kind) same ∙ takes in
    let placed = step-placed j name (suc (length is)) st j_named j_takes sound room quiet in
    let kept = loop-Keeps is (pass1_step j st) in
    (placement j st, refl, kept.labels ((step-Keeps j st).sound sound) name _ placed)
loop-placed (j ∷ is) st (suc k) i name (p, ps) room sound h at_k named takes =
    let quiet = loop-quiet is (pass1_step j st) h in
    let roomy = step-HasRoom j p (length is) st room quiet in
    loop-placed is (pass1_step j st) k i name ps roomy ((step-Keeps j st).sound sound) h at_k named
      takes
