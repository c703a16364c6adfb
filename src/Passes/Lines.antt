-- ===== src/Passes/Lines.antt =====
-- Instructions and data directives of passes/pass2.c leave the location in force alone, and an
-- instruction records it first.
use nazm.Prelude.{
  ℕ, ◌≡◌, refl, Bool, true, false, List, ◌∷◌, Option, none, some, Bool-cases, inl, inr, ℤ, pos,
  ltb_ℤ, ◌==◌, length, arith,
}
use nazm.Encoder.Operands.{Operand}
use nazm.Encoder.Opcodes.{Opcode}
use nazm.Encoder.Emit.{EncodedInstruction}
use nazm.Encoder.Table.{encoder_encode}
use nazm.Symtable.{SymbolSection}
use nazm.Passes.Instruction.{DirectiveKind}
use nazm.Passes.First.{Pass1State, laid_size}
use nazm.Passes.Buffers.{buffer_append, emit_data_directive}
use nazm.Passes.Offsets.{is_section}
use nazm.Passes.Resolve.{Relocation, Pass2Error, resolve_operands, rip_relocations}
use nazm.Passes.Output.{
  pass2_section_size, pass2_relocation_section, pass2_section_capacity, pass2_section_bytes,
  DebugLine, Pass2State, Flow, go, stop,
}
use nazm.Passes.Data.{data_directive_size_at}
use nazm.Passes.Second.{
  resolve_data, encoding_error, after_data, with_resolution, resolution_of, note_line, after_text,
  write_data, write_nops, write_encoded, write_instruction,
}

abbrev pub state_of : Flow → Pass2State
state_of (go size st) = st
state_of (stop size st) = st

-- The location in force and the records.
pub record Debug : Type 0 where
  pub file : ℕ
  pub line : ℕ
  pub column : ℕ
  pub records : List DebugLine

abbrev pub debug_of : Pass2State → Debug
debug_of st = record {
  file = st.debug_file;
  line = st.debug_line;
  column = st.debug_column;
  records = st.debug_lines;
}

-- A round that leaves the location and the records alone.
abbrev pub Keeps : Pass2State → Flow → Type 0
Keeps st flow = debug_of (state_of flow) ≡ debug_of st

after_data-Keeps :
    (section : SymbolSection) (expected : ℤ) (before : ℕ) (result : Bool × List ℕ) (st : Pass2State)
    → Keeps st (after_data section expected before result st)
unfolding after_data
after_data-Keeps SymbolSection.data_section expected before (false, bytes) st = refl
after_data-Keeps SymbolSection.data_section expected before (true, bytes) st = ground arith
after_data-Keeps SymbolSection.read_only_data expected before (false, bytes) st = refl
after_data-Keeps SymbolSection.read_only_data expected before (true, bytes) st = ground arith
after_data-Keeps SymbolSection.text expected before (false, bytes) st = refl
after_data-Keeps SymbolSection.text expected before (true, bytes) st = ground arith
after_data-Keeps SymbolSection.bss expected before (false, bytes) st = refl
after_data-Keeps SymbolSection.bss expected before (true, bytes) st = ground arith
after_data-Keeps SymbolSection.unknown expected before (false, bytes) st = refl
after_data-Keeps SymbolSection.unknown expected before (true, bytes) st = ground arith

after_text-Keeps :
    (size : ℕ) (result : Bool × List ℕ) (st : Pass2State) → Keeps st (after_text size result st)
unfolding after_text
after_text-Keeps size (false, bytes) st = refl
after_text-Keeps size (true, bytes) st = refl

after_rip-Keeps :
    (found : Option (List Relocation)) (size : ℕ) (result : Bool × List ℕ) (st : Pass2State)
    → Keeps st (elim found [
      | none ↦ stop 0 (record st { errors = Pass2Error.rip_displacement_missing ∷ st.errors })
      | some relocations ↦ after_text size result (record st { relocations = relocations })
    ])
after_rip-Keeps none size result st = refl
after_rip-Keeps (some relocations) size result st =
    after_text-Keeps size result (record st { relocations = relocations })

module _ (pass1 : Pass1State) where
  nops-Keeps : (n : ℕ) (st : Pass2State) → Keeps st (write_nops pass1 n st)
  unfolding write_nops
  nops-Keeps n st = after_text-Keeps n _ st

  encoded-Keeps :
      (op : Opcode) (ops : List Operand) (n : ℕ) (enc : EncodedInstruction) (st : Pass2State)
      → Keeps st (write_encoded pass1 op ops n enc st)
  unfolding write_encoded
  encoded-Keeps op ops n enc st =
      let failed = nops-Keeps n (record st { errors = encoding_error op ops ∷ st.errors }) in
      let taken =
        after_rip-Keeps (rip_relocations (length st.text_bytes) enc.len ops st.relocations) enc.len
          (buffer_append pass1.offsets.text st.text_bytes enc.bytes) st in
      elim (Bool-cases enc.error) [
        | inl e ↦ rw (write_encoded, e) failed
        | inr e ↦ elim (Bool-cases (enc.len == n)) [
          | inl same ↦ rw (write_encoded, e, same) taken
          | inr other ↦ rw (write_encoded, e, other) refl
        ]
      ]

  pub instruction-Keeps :
      (op : Opcode) (ops : List Operand) (st : Pass2State)
      → debug_of (state_of (write_instruction pass1 op ops st)) ≡ debug_of (note_line st)
  unfolding write_instruction
  instruction-Keeps op ops st =
      let n = laid_size op ops in
      let noted = note_line st in
      let r =
        resolve_operands pass1.symtable op ops (length noted.text_bytes) n 0 ops
          (resolution_of noted) in
      elim (Bool-cases r.failed) [
        | inl e ↦ rw (write_instruction, e) (nops-Keeps n (with_resolution r noted))
        | inr e ↦
            rw (write_instruction, e)
              (encoded-Keeps op ops n (encoder_encode op ops r.target) (with_resolution r noted))
      ]

  pub data-Keeps :
      (section : SymbolSection) (kind : DirectiveKind) (ops : List Operand) (st : Pass2State)
      → Keeps st (write_data pass1 section kind ops st)
  unfolding write_data
  data-Keeps section kind ops st =
      let before = pass2_section_size section st in
      let expected = data_directive_size_at kind ops before in
      let resolved =
        with_resolution
          (resolve_data pass1.symtable kind (pass2_relocation_section section) before ops
            (resolution_of st))
          st in
      let written =
        after_data-Keeps section expected before
          (emit_data_directive (pass2_section_capacity pass1.offsets section) kind ops
            (pass2_section_bytes section resolved))
          resolved in
      elim (Bool-cases (ltb_ℤ expected (pos 0))) [
        | inl e ↦ rw (write_data, e) refl
        | inr e ↦ elim (Bool-cases (is_section section SymbolSection.bss)) [
          | inl space ↦ rw (write_data, e, space) refl
          | inr bytes ↦ rw (write_data, e, bytes) written
        ]
      ]
