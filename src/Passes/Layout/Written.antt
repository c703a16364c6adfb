-- ===== src/Passes/Layout/Written.antt =====
-- The second pass of passes/pass2.c follows the layout, where the buffers are large enough: each
-- line takes its size, whether it is encoded, filled or rejected.
use nazm.Prelude.{
  ℕ, ◌+◌, ◌-◌, ◌≤◌, ◌≡◌, ◌⊎◌, refl, sym, ap, ◌∙◌, true, false, List, [], ◌∷◌, ◌++◌, some,
  Bool-cases, inl, inr, length, length-append, ℤ, ==_iff, negsuc, arith,
}
use nazm.Encoder.Operands.{Operand, mem_rip_label}
use nazm.Encoder.Opcodes.{Opcode}
use nazm.Encoder.Emit.{EncodedInstruction}
use nazm.Encoder.Table.{encoder_encode}
use nazm.Encoder.Agreement.{instruction_size-encode}
use nazm.Encoder.Sizes.Table.{length-encoder_encode}
use nazm.Encoder.RipRelative.{has_rip, ignores_operands, encoder_encode-Rip}
use nazm.Symtable.{SymbolSection}
use nazm.Passes.Instruction.{Instruction, IsParsed}
use nazm.Passes.Offsets.{Offsets, add_size}
use nazm.Passes.First.{Pass1State, laid_size}
use nazm.Passes.Buffers.{repeated}
use nazm.Passes.Sizes.{length-repeated}
use nazm.Passes.Emission.{buffer_append_lem, buffer_fill_lem}
use nazm.Passes.Resolve.{
  RelocationKind, text_relocation, Relocation, resolve_operands, rip_relocations,
}
use nazm.Passes.Output.{Pass2State, Flow, go}
use nazm.Passes.Second.{
  with_resolution, resolution_of, note_line, after_text, encoding_error, write_nops, write_encoded,
  write_instruction,
}
use nazm.Passes.Layout.{grow}

-- The sizes of the sections so far.
abbrev pub sizes_of : Pass2State → Offsets
sizes_of st = record {
  text = length st.text_bytes;
  data_section = length st.data_bytes;
  read_only_data = length st.read_only_data_bytes;
  bss = st.bss_size;
}

-- The size of an emission span: zero-initialised space has no bytes.
abbrev pub span_size : SymbolSection → ℕ → ℕ
span_size SymbolSection.bss n = 0
span_size section n = n

-- A round that goes on from the sizes `o`, to the sizes that the layout gives.
pub record Writes (section : SymbolSection) (n : ℕ) (o : Offsets) (flow : Flow) : Type 0 where
  pub next : Pass2State
  pub size : ℕ
  pub goes : flow ≡ go size next
  pub moves : next.current_section ≡ section
  pub writes : sizes_of next ≡ grow section n o
  pub spans : size ≡ span_size section n

-- The text with `more` bytes behind it.
text-Writes :
    (st : Pass2State) (n : ℕ) (more : List ℕ)
    → length more ≡ n
    → st.current_section ≡ SymbolSection.text
    → Writes SymbolSection.text n (sizes_of st) (after_text n (true, st.text_bytes ++ more) st)
unfolding after_text
text-Writes st n more counted here = record {
  next = record st { text_bytes = st.text_bytes ++ more };
  size = n;
  goes = refl;
  moves = here;
  writes =
      ap (λ (t : ℕ). record (sizes_of st) { text = t })
        (length-append st.text_bytes more ∙ ap (λ (t : ℕ). length st.text_bytes + t) counted);
  spans = refl;
}

-- Behind an encoding that holds the displacement of its RIP-relative operand, the relocations are
-- found.
rip_relocations-found :
    (offset len : ℕ) (ops : List Operand) (relocations : List Relocation)
    → (has_rip ops ≡ true → 4 ≤ len)
    → (found : List Relocation) × (rip_relocations offset len ops relocations ≡ some found)
unfolding rip_relocations add_size
rip_relocations-found offset len [] relocations h = (relocations, refl)
rip_relocations-found offset len (mem_rip_label name ∷ ops) relocations h =
    let long = h refl in
    let (found, e) =
      rip_relocations-found offset len ops
        (text_relocation RelocationKind.pc32 (add_size offset (len - 4)) name (negsuc 3)
          ∷ relocations)
        (λ _. long) in
    (found, rw e (ground arith))
rip_relocations-found offset len (Operand.none ∷ ops) relocations h =
    rip_relocations-found offset len ops relocations h
rip_relocations-found offset len (Operand.reg r ∷ ops) relocations h =
    rip_relocations-found offset len ops relocations h
rip_relocations-found offset len (Operand.imm v ∷ ops) relocations h =
    rip_relocations-found offset len ops relocations h
rip_relocations-found offset len (Operand.mem_reg r ∷ ops) relocations h =
    rip_relocations-found offset len ops relocations h
rip_relocations-found offset len (Operand.mem_disp r d ∷ ops) relocations h =
    rip_relocations-found offset len ops relocations h
rip_relocations-found offset len (Operand.label l ∷ ops) relocations h =
    rip_relocations-found offset len ops relocations h
rip_relocations-found offset len (Operand.string t ∷ ops) relocations h =
    rip_relocations-found offset len ops relocations h

-- An encoding without an error has the size that was laid out for it.
encoding-sized :
    (i : Instruction)
    → IsParsed i
    → (target : ℤ) → (encoder_encode i.opcode i.ops target).error ≡ false
    → ((encoder_encode i.opcode i.ops target).len ≡ laid_size i.opcode i.ops)
      × (length (encoder_encode i.opcode i.ops target).bytes ≡ laid_size i.opcode i.ops)
      × (has_rip i.ops ≡ true → 4 ≤ (encoder_encode i.opcode i.ops target).len)
unfolding laid_size
encoding-sized i parsed target ok =
    let same = instruction_size-encode i.opcode i.ops target ok in
    let (positive, small, counted) = length-encoder_encode i.opcode i.ops target ok in
    let laid : laid_size i.opcode i.ops ≡ (encoder_encode i.opcode i.ops target).len =
      ground arith in
    (sym laid, counted ∙ sym laid, λ rip. long rip (Bool-cases (ignores_operands i.opcode)))
  where
    long :
        has_rip i.ops ≡ true
        → (ignores_operands i.opcode ≡ true) ⊎ (ignores_operands i.opcode ≡ false)
        → 4 ≤ (encoder_encode i.opcode i.ops target).len
    long rip (inl ignores) =
        let none_there : has_rip [] ≡ true = rw (parsed.2 ignores) at rip in absurd (ground arith)
    long rip (inr looks) = encoder_encode-Rip i.opcode target looks i.ops rip ok

module _ (pass1 : Pass1State) where
  nops-Writes :
      (n : ℕ) (st : Pass2State)
      → st.current_section ≡ SymbolSection.text
      → length st.text_bytes + n ≤ pass1.offsets.text
      → Writes SymbolSection.text n (sizes_of st) (write_nops pass1 n st)
  unfolding write_nops
  nops-Writes n st here room =
      rw (buffer_fill_lem pass1.offsets.text st.text_bytes 0x90 n room)
        (text-Writes st n (repeated 0x90 n) (length-repeated 0x90 n) here)

  encoded-Writes :
      (op : Opcode) (ops : List Operand) (n : ℕ) (enc : EncodedInstruction) (st : Pass2State)
      → st.current_section ≡ SymbolSection.text
      → length st.text_bytes + n ≤ pass1.offsets.text
      → (enc.error ≡ false
          → (enc.len ≡ n) × (length enc.bytes ≡ n) × (has_rip ops ≡ true → 4 ≤ enc.len))
      → Writes SymbolSection.text n (sizes_of st) (write_encoded pass1 op ops n enc st)
  unfolding write_encoded
  encoded-Writes op ops n enc st here room sized = elim (Bool-cases enc.error) [
    | inl failed ↦
        rw (write_encoded, failed)
          (nops-Writes n (record st { errors = encoding_error op ops ∷ st.errors }) here room)
    | inr ok ↦
        let (same, counted, long) = sized ok in
        let (found, e) =
          rip_relocations-found (length st.text_bytes) enc.len ops st.relocations long in
        let fits = buffer_append_lem pass1.offsets.text st.text_bytes enc.bytes (omega arith) in
        let equal = (==_iff enc.len n).1 same in
        rw (write_encoded, ok, equal, e, fits, same)
          (text-Writes (record st { relocations = found }) n enc.bytes counted here)
  ]

  pub instruction-Writes :
      (i : Instruction) (st : Pass2State)
      → IsParsed i
      → st.current_section ≡ SymbolSection.text
      → length st.text_bytes + laid_size i.opcode i.ops ≤ pass1.offsets.text
      → Writes SymbolSection.text
          (laid_size i.opcode i.ops)
          (sizes_of st)
          (write_instruction pass1 i.opcode i.ops st)
  unfolding write_instruction note_line
  instruction-Writes i st parsed here room =
      let n = laid_size i.opcode i.ops in
      let noted = note_line st in
      let r =
        resolve_operands pass1.symtable i.opcode i.ops (length st.text_bytes) n 0 i.ops
          (resolution_of noted) in
      elim (Bool-cases r.failed) [
        | inl e ↦ rw (write_instruction, e) (nops-Writes n (with_resolution r noted) here room)
        | inr e ↦
            rw (write_instruction, e)
              (encoded-Writes i.opcode i.ops n (encoder_encode i.opcode i.ops r.target)
                (with_resolution r noted) here room (encoding-sized i parsed r.target))
      ]
