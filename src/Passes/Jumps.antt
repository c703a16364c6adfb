-- ===== src/Passes/Jumps.antt =====
-- A jump or a call to a label of the text, in passes/pass2.c: the bytes that are written for it.
use nazm.Prelude.{
  ℕ, ◌+◌, ◌≤◌, ◌<◌, ◌^◌, ◌≡◌, refl, sym, ap, ◌∙◌, true, false, List, [], ◌∷◌, ◌++◌, some, length, ℤ,
  pos, ◌-ℤ◌, IsI32, ==_iff, arith,
}
use nazm.Encoder.Operands.{Operand, Text, label}
use nazm.Encoder.Opcodes.{Opcode}
use nazm.Encoder.Table.{encoder_encode}
use nazm.Encoder.Agreement.{instruction_size-encode}
use nazm.Encoder.Sizes.Table.{length-encoder_encode}
use nazm.Encoder.Decode.Jumps.{Transfer, transfer_of, read_jump-encoder_encode}
use nazm.Symtable.{SymbolSection, symtable_lookup_ex}
use nazm.Passes.Offsets.{add_size_exact}
use nazm.Passes.First.{Pass1State, laid_size}
use nazm.Passes.Emission.{buffer_append_lem}
use nazm.Passes.Resolve.{
  opcode_uses_relative_label, Resolution, resolve_jump, resolve_label, resolve_found,
  resolve_operand, resolve_operands, rip_relocations,
}
use nazm.Passes.Output.{Pass2State, go}
use nazm.Passes.Second.{resolution_of, note_line, after_text, write_encoded, write_instruction}

transfer-relative :
    (op : Opcode) (t : Transfer) → transfer_of op ≡ some t → opcode_uses_relative_label op ≡ true
unfolding opcode_uses_relative_label
transfer-relative Opcode.jmp t h = refl
transfer-relative Opcode.call t h = refl
transfer-relative Opcode.je t h = refl
transfer-relative Opcode.jz t h = refl
transfer-relative Opcode.jne t h = refl
transfer-relative Opcode.jnz t h = refl
transfer-relative Opcode.js t h = refl
transfer-relative Opcode.jns t h = refl
transfer-relative Opcode.jl t h = refl
transfer-relative Opcode.jge t h = refl
transfer-relative Opcode.jle t h = refl
transfer-relative Opcode.jg t h = refl
transfer-relative _ t h = absurd (ground arith)

module _ (pass1 : Pass1State) (op : Opcode) (t : Transfer) (name : Text) (goal : ℕ)
    (transfers : transfer_of op ≡ some t)
    (there : symtable_lookup_ex pass1.symtable name ≡ some (pos goal, SymbolSection.text))
    (near : goal < 2 ^ 31) (small : pass1.offsets.text < 2 ^ 31) (st : Pass2State)
    (room : length st.text_bytes + laid_size op (label name ∷ []) ≤ pass1.offsets.text) where
  abbrev ops : List Operand
  ops = label name ∷ []

  abbrev offset : ℕ
  offset = length st.text_bytes

  abbrev size : ℕ
  size = laid_size op ops

  -- From the offset behind the instruction to the label.
  abbrev pub distance : ℤ
  distance = pos goal -ℤ pos (offset + size)

  pub distance-IsI32 : IsI32 distance
  distance-IsI32 = ground arith

  jump-resolved :
      (r : Resolution)
      → resolve_jump pass1.symtable op ops offset size name (pos goal) SymbolSection.text r
        ≡ record r { target = distance }
  unfolding resolve_jump
  jump-resolved r = let exact = add_size_exact offset size (omega arith) in rw exact (ground arith)

  operands-resolved :
      (r : Resolution)
      → resolve_operands pass1.symtable op ops offset size 0 ops r ≡ record r { target = distance }
  unfolding resolve_operands resolve_operand resolve_label resolve_found
  operands-resolved r =
      let relative = transfer-relative op t transfers in rw (there, relative) (jump-resolved r)

  jump-sized :
      (target : ℤ)
      → (encoder_encode op ops target).error ≡ false
      → ((encoder_encode op ops target).len ≡ size)
        × (length (encoder_encode op ops target).bytes ≡ size)
  unfolding laid_size
  jump-sized target ok =
      let same = instruction_size-encode op ops target ok in
      let (positive, bounded, counted) = length-encoder_encode op ops target ok in
      let laid : size ≡ (encoder_encode op ops target).len = ground arith in
      (sym laid, counted ∙ sym laid)

  -- The state behind the instruction.
  abbrev pub after_jump : Pass2State
  after_jump = record (note_line st) {
    text_bytes = st.text_bytes ++ (encoder_encode op ops distance).bytes;
  }

  encoded-goes :
      (noted : Pass2State)
      → noted.text_bytes ≡ st.text_bytes
      → write_encoded pass1 op ops size (encoder_encode op ops distance) noted
        ≡ go size (record noted {
          text_bytes = noted.text_bytes ++ (encoder_encode op ops distance).bytes;
        })
  unfolding write_encoded after_text rip_relocations
  encoded-goes noted same =
      let enc = encoder_encode op ops distance in
      let ok : enc.error ≡ false =
        (read_jump-encoder_encode op t name distance transfers).0.1 distance-IsI32 in
      let (long, counted) = jump-sized distance ok in
      let equal = (==_iff enc.len size).1 long in
      let fits =
        buffer_append_lem pass1.offsets.text noted.text_bytes enc.bytes
          (let here = ap length same in omega arith) in
      rw (write_encoded, ok, equal, fits, long) refl

  pub jump-goes : write_instruction pass1 op ops st ≡ go size after_jump
  unfolding write_instruction note_line
  jump-goes =
      rw (write_instruction, operands-resolved (resolution_of (note_line st)))
        (encoded-goes (note_line st) refl)
