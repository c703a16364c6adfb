-- ===== src/Passes/Appends.antt =====
-- The second pass of passes/pass2.c only adds to the text: what it has written stays.
use nazm.Prelude.{
  ℕ, ◌≡◌, refl, sym, ap, ◌∙◌, subst, Bool, true, false, ◌||◌, not, List, [], ◌∷◌, ◌++◌, Option,
  none, some, append_assoc, append-nil, Bool-cases, inl, inr, ℤ, pos, ltb_ℤ, ◌==◌, length,
  if◌then◌else◌, arith,
}
use nazm.Encoder.Operands.{Operand}
use nazm.Encoder.Opcodes.{Opcode}
use nazm.Encoder.Emit.{EncodedInstruction}
use nazm.Encoder.Table.{encoder_encode}
use nazm.Symtable.{SymbolSection}
use nazm.Passes.Instruction.{DirectiveKind, Instruction}
use nazm.Passes.First.{Pass1State, laid_size, opcode_is_invalid}
use nazm.Passes.Buffers.{
  repeated, buffer_has_capacity, buffer_append, buffer_fill, emit_data_directive,
}
use nazm.Passes.Offsets.{is_section}
use nazm.Passes.Resolve.{Relocation, Pass2Error, resolve_operands, rip_relocations}
use nazm.Passes.Output.{
  pass2_section_size, pass2_relocation_section, pass2_section_capacity, pass2_section_bytes,
  Pass2State, Flow, go, stop,
}
use nazm.Passes.Data.{data_directive_size_at}
use nazm.Passes.Second.{
  resolve_data, store_location, encoding_error, after_data, with_resolution, resolution_of,
  note_line, after_text, write_data, write_nops, write_encoded, write_instruction, write_line,
  pass2_line, pass2_step, pass2_loop,
}
use nazm.Passes.Lines.{state_of}
use nazm.Passes.Records.{Flow-cases}

abbrev pub Extends : List ℕ → List ℕ → Type 0
Extends before after = (more : List ℕ) × (after ≡ before ++ more)

Extends-refl : (bytes : List ℕ) → Extends bytes bytes
Extends-refl bytes = ([], sym (append-nil bytes))

Extends-trans : (a b c : List ℕ) → Extends a b → Extends b c → Extends a c
Extends-trans a b c (more, h) (rest, k) =
    (more ++ rest, k ∙ ap (λ s. s ++ rest) h ∙ append_assoc a more rest)

-- A round that keeps the text written so far.
abbrev pub Appends : Pass2State → Flow → Type 0
Appends st flow = Extends st.text_bytes (state_of flow).text_bytes

append-Extends :
    (capacity : ℕ) (written bytes : List ℕ)
    → Extends written (buffer_append capacity written bytes).1
unfolding buffer_append
append-Extends capacity written bytes =
    elim (Bool-cases (buffer_has_capacity (length written) (length bytes) capacity)) [
      | inl e ↦ rw (buffer_append, e) (bytes, refl)
      | inr e ↦ rw (buffer_append, e) (Extends-refl written)
    ]

after_text-Appends :
    (size : ℕ) (result : Bool × List ℕ) (st : Pass2State)
    → Extends st.text_bytes result.1
    → Appends st (after_text size result st)
unfolding after_text
after_text-Appends size (false, bytes) st x = Extends-refl st.text_bytes
after_text-Appends size (true, bytes) st x = x

fill-Extends :
    (capacity : ℕ) (written : List ℕ) (value amount : ℕ)
    → Extends written (buffer_fill capacity written value amount).1
unfolding buffer_fill
fill-Extends capacity written value amount =
    elim (Bool-cases (buffer_has_capacity (length written) amount capacity)) [
      | inl e ↦ rw (buffer_fill, e) (repeated value amount, refl)
      | inr e ↦ rw (buffer_fill, e) (Extends-refl written)
    ]

-- Data that stands outside the text.
after_data-Appends :
    (section : SymbolSection) (expected : ℤ) (before : ℕ) (result : Bool × List ℕ) (st : Pass2State)
    → is_section section SymbolSection.text ≡ false
    → (state_of (after_data section expected before result st)).text_bytes ≡ st.text_bytes
unfolding after_data
after_data-Appends SymbolSection.data_section expected before (false, bytes) st h = refl
after_data-Appends SymbolSection.data_section expected before (true, bytes) st h = ground arith
after_data-Appends SymbolSection.read_only_data expected before (false, bytes) st h = refl
after_data-Appends SymbolSection.read_only_data expected before (true, bytes) st h = ground arith
after_data-Appends SymbolSection.text expected before result st h = absurd (ground arith)
after_data-Appends SymbolSection.bss expected before (false, bytes) st h = refl
after_data-Appends SymbolSection.bss expected before (true, bytes) st h = ground arith
after_data-Appends SymbolSection.unknown expected before (false, bytes) st h = refl
after_data-Appends SymbolSection.unknown expected before (true, bytes) st h = ground arith

after_rip-Appends :
    (found : Option (List Relocation)) (size : ℕ) (result : Bool × List ℕ) (st : Pass2State)
    → Extends st.text_bytes result.1
    → Appends st (elim found [
      | none ↦ stop 0 (record st { errors = Pass2Error.rip_displacement_missing ∷ st.errors })
      | some relocations ↦ after_text size result (record st { relocations = relocations })
    ])
after_rip-Appends none size result st x = Extends-refl st.text_bytes
after_rip-Appends (some relocations) size result st x =
    after_text-Appends size result (record st { relocations = relocations }) x

module _ (pass1 : Pass1State) where
  nops-Appends : (n : ℕ) (st : Pass2State) → Appends st (write_nops pass1 n st)
  unfolding write_nops
  nops-Appends n st =
      after_text-Appends n _ st (fill-Extends pass1.offsets.text st.text_bytes 0x90 n)

  encoded-Appends :
      (op : Opcode) (ops : List Operand) (n : ℕ) (enc : EncodedInstruction) (st : Pass2State)
      → Appends st (write_encoded pass1 op ops n enc st)
  unfolding write_encoded
  encoded-Appends op ops n enc st =
      let failed = nops-Appends n (record st { errors = encoding_error op ops ∷ st.errors }) in
      let taken =
        after_rip-Appends (rip_relocations (length st.text_bytes) enc.len ops st.relocations)
          enc.len (buffer_append pass1.offsets.text st.text_bytes enc.bytes) st
          (append-Extends pass1.offsets.text st.text_bytes enc.bytes) in
      elim (Bool-cases enc.error) [
        | inl e ↦ rw (write_encoded, e) failed
        | inr e ↦ elim (Bool-cases (enc.len == n)) [
          | inl same ↦ rw (write_encoded, e, same) taken
          | inr other ↦ rw (write_encoded, e, other) (Extends-refl st.text_bytes)
        ]
      ]

  instruction-Appends :
      (op : Opcode) (ops : List Operand) (st : Pass2State)
      → Appends st (write_instruction pass1 op ops st)
  unfolding write_instruction note_line
  instruction-Appends op ops st =
      let n = laid_size op ops in
      let noted = note_line st in
      let r =
        resolve_operands pass1.symtable op ops (length noted.text_bytes) n 0 ops
          (resolution_of noted) in
      elim (Bool-cases r.failed) [
        | inl e ↦ rw (write_instruction, e) (nops-Appends n (with_resolution r noted))
        | inr e ↦
            rw (write_instruction, e)
              (encoded-Appends op ops n (encoder_encode op ops r.target) (with_resolution r noted))
      ]

  data-Appends :
      (section : SymbolSection) (kind : DirectiveKind) (ops : List Operand) (st : Pass2State)
      → is_section section SymbolSection.text ≡ false
      → (state_of (write_data pass1 section kind ops st)).text_bytes ≡ st.text_bytes
  unfolding write_data
  data-Appends section kind ops st outside =
      let before = pass2_section_size section st in
      let expected = data_directive_size_at kind ops before in
      let resolved =
        with_resolution
          (resolve_data pass1.symtable kind (pass2_relocation_section section) before ops
            (resolution_of st))
          st in
      let written =
        after_data-Appends section expected before
          (emit_data_directive (pass2_section_capacity pass1.offsets section) kind ops
            (pass2_section_bytes section resolved))
          resolved outside in
      elim (Bool-cases (ltb_ℤ expected (pos 0))) [
        | inl e ↦ rw (write_data, e) refl
        | inr e ↦ elim (Bool-cases (is_section section SymbolSection.bss)) [
          | inl space ↦ rw (write_data, e, space) refl
          | inr bytes ↦ rw (write_data, e, bytes) written
        ]
      ]

  module _ (i : Instruction) (st : Pass2State) where
    code-line : Appends st (write_line pass1 i st)
    unfolding write_line
    code-line =
        elim (Bool-cases
          (opcode_is_invalid i.opcode || not (is_section st.current_section SymbolSection.text))) [
            | inl e ↦ rw (write_line, e) (Extends-refl st.text_bytes)
            | inr e ↦ rw (write_line, e) (instruction-Appends i.opcode i.ops st)
          ]

    data-line :
        (kind : DirectiveKind)
        → Appends st (
            if is_section st.current_section SymbolSection.text
            then go 0 st
            else write_data pass1 st.current_section kind i.ops st)
    data-line kind = elim (Bool-cases (is_section st.current_section SymbolSection.text)) [
      | inl e ↦ rw e (Extends-refl st.text_bytes)
      | inr e ↦
          let same = data-Appends st.current_section kind i.ops st e in
          rw e (subst (Extends st.text_bytes) (sym same) (Extends-refl st.text_bytes))
    ]

    store-same : (ops : List Operand) → (store_location ops st).text_bytes ≡ st.text_bytes
    store-same (Operand.imm file ∷ Operand.imm line ∷ Operand.imm column ∷ []) = refl
    store-same _ = refl

    line-Appends : (kind : DirectiveKind) → Appends st (pass2_line pass1 kind i st)
    unfolding pass2_line
    line-Appends DirectiveKind.none = code-line
    line-Appends DirectiveKind.debug_location =
        subst (Extends st.text_bytes) (sym (store-same i.ops)) (Extends-refl st.text_bytes)
    line-Appends DirectiveKind.text = Extends-refl st.text_bytes
    line-Appends DirectiveKind.data_section = Extends-refl st.text_bytes
    line-Appends DirectiveKind.read_only_data = Extends-refl st.text_bytes
    line-Appends DirectiveKind.bss = Extends-refl st.text_bytes
    line-Appends DirectiveKind.external = Extends-refl st.text_bytes
    line-Appends DirectiveKind.global = Extends-refl st.text_bytes
    line-Appends DirectiveKind.local = Extends-refl st.text_bytes
    line-Appends DirectiveKind.debug_file = Extends-refl st.text_bytes
    line-Appends DirectiveKind.debug_file_bytes = Extends-refl st.text_bytes
    line-Appends DirectiveKind.int8 = data-line DirectiveKind.int8
    line-Appends DirectiveKind.int16 = data-line DirectiveKind.int16
    line-Appends DirectiveKind.int32 = data-line DirectiveKind.int32
    line-Appends DirectiveKind.int64 = data-line DirectiveKind.int64
    line-Appends DirectiveKind.alignment = data-line DirectiveKind.alignment
    line-Appends DirectiveKind.zero_space = data-line DirectiveKind.zero_space
    line-Appends DirectiveKind.nul_string = data-line DirectiveKind.nul_string
    line-Appends DirectiveKind.invalid = data-line DirectiveKind.invalid

  pub loop-Appends :
      (is : List Instruction) (st : Pass2State) → Appends st (pass2_loop pass1 is st).1
  unfolding pass2_loop pass2_step
  loop-Appends [] st = Extends-refl st.text_bytes
  loop-Appends (i ∷ is) st =
      let here = line-Appends i st i.directive_kind in
      elim (Flow-cases (pass2_step pass1 i st)) [
        | inl (size, next, e) ↦
            rw (pass2_loop, e)
              (Extends-trans st.text_bytes next.text_bytes _
                (subst (λ s. Extends st.text_bytes s.text_bytes) (ap state_of e) here)
                (loop-Appends is next))
        | inr (size, end, e) ↦
            rw (pass2_loop, e)
              (subst (λ s. Extends st.text_bytes s.text_bytes) (ap state_of e) here)
      ]
