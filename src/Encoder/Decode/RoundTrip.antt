-- ===== src/Encoder/Decode/RoundTrip.antt =====
-- What the encoders of MOV, the ALU group, TEST and LEA emit reads back as the same instruction.
use nazm.Prelude.{
  ℕ, ◌%◌, ◌≡◌, inl, inr, refl, ◌∙◌, sym, Bool, true, false, ◌==◌, Bool-cases, List, [], some,
  if◌then◌else◌, leb, ℤ, IsI32, arith,
}
use nazm.Encoder.Registers.{RegId, reg_width_bits}
use nazm.Encoder.Operands.{Operand, reg, mem_disp}
use nazm.Encoder.Opcodes.{Opcode}
use nazm.Encoder.Emit.{
  Emit, EncodedInstruction, make_error, encoded, emit_rr, emit_mem, valid_integer_width,
}
use nazm.Encoder.Emit.Adds.{Adds}
use nazm.Encoder.Emit.Helpers.{emit_rr-Adds, emit_mem-Adds}
use nazm.Encoder.Decode.Heads.{is_prefix}
use nazm.Encoder.Decode.Instruction.{read_operands, meaning, in_order, decode_instruction}
use nazm.Encoder.Decode.Operands.{Suits, read_operands-rr, read_operands-mem}

-- A guarded encoding that succeeds passed its guard.
pub checked-passed :
    (c : Bool) (x : EncodedInstruction)
    → (if c then make_error else x).error ≡ false
    → (c ≡ false) × ((if c then make_error else x).bytes ≡ x.bytes)
checked-passed true x h = cc
checked-passed false x h = (refl, refl)

-- The bytes of an action with room for it.
pub encoded_bytes : (f : Emit) (p : Adds f) → (leb p.most 15) ≡ true → (encoded f).bytes ≡ p.added
unfolding encoded
encoded_bytes f p h = p.appends [] (ground arith)

-- From the operands to the instruction, by the opcode.
pub decode-operands :
    (bytes rest : List ℕ) (opcode : ℕ) (r : RegId) (operand : Operand) (op : Opcode) (first : Bool)
    → read_operands bytes ≡ some (opcode, r, operand, rest)
    → meaning opcode ≡ some (op, first)
    → decode_instruction bytes ≡ some (op, in_order first r operand, rest)
unfolding decode_instruction
decode-operands bytes rest opcode r operand op first e m = rw (e, m)

module _ (opcode8 opcode : ℕ) (op : Opcode) (first : Bool) where
  -- The pair of opcodes stands for `op`, at width 8 and at the others.
  pub record IsPair : Type 0 where
    pub even : (opcode8 % 2 == 0) ≡ true
    pub odd : (opcode % 2 == 0) ≡ false
    pub plain8 : is_prefix opcode8 ≡ false
    pub plain : is_prefix opcode ≡ false
    pub meaning8 : meaning opcode8 ≡ some (op, first)
    pub meaning_is : meaning opcode ≡ some (op, first)

  module _ (pair : IsPair) (width : ℕ) (valid : valid_integer_width width ≡ true) where
    suits : Suits width (if width == 8 then opcode8 else opcode)
    suits = elim (Bool-cases (width == 8)) [
      | inl at_8 ↦
          rw at_8 (record { valid = valid; parity = pair.even ∙ sym at_8; plain = pair.plain8 })
      | inr other ↦
          rw other (record { valid = valid; parity = pair.odd ∙ sym other; plain = pair.plain })
    ]

    meant : meaning (if width == 8 then opcode8 else opcode) ≡ some (op, first)
    meant = elim (Bool-cases (width == 8)) [
      | inl at_8 ↦ rw at_8 pair.meaning8
      | inr other ↦ rw other pair.meaning_is
    ]

    pub decode-rr :
        (dst src : RegId)
        → reg_width_bits dst ≡ width
        → reg_width_bits src ≡ width
        → decode_instruction
            (encoded (emit_rr (if width == 8 then opcode8 else opcode) dst src width)).bytes
          ≡ some (op, in_order first src (reg dst), [])
    decode-rr dst src hd hs =
        rw
          (encoded_bytes _ (emit_rr-Adds (if width == 8 then opcode8 else opcode) dst src width)
            refl)
          (decode-operands _ _ _ _ _ op first (read_operands-rr _ src width hs suits dst hd) meant)

    pub decode-mem :
        (r base : RegId) (disp : ℤ)
        → reg_width_bits r ≡ width
        → reg_width_bits base ≡ 64
        → IsI32 disp
        → decode_instruction
            (encoded (emit_mem (if width == 8 then opcode8 else opcode) r base disp width)).bytes
          ≡ some (op, in_order first r (mem_disp base disp), [])
    decode-mem r base disp hr hb h =
        rw
          (encoded_bytes _
            (emit_mem-Adds (if width == 8 then opcode8 else opcode) r base disp width) refl)
          (decode-operands _ _ _ _ _ op first (read_operands-mem _ r width hr suits base disp hb h)
            meant)
