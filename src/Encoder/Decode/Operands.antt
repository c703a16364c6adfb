-- ===== src/Encoder/Decode/Operands.antt =====
-- The operands of `emit_rr` and `emit_mem` read back, at every width.
use nazm.Prelude.{ℕ, ◌%◌, ◌≡◌, ◌⊎◌, Bool, true, false, ◌||◌, ◌==◌, List, [], some, ℤ, IsI32, arith}
use nazm.Encoder.Registers.{
  RegId, reg_index, reg_needs_rex, reg_width_bits, reg_requires_rex_byte, reg_invalid, reg_field,
}
use nazm.Encoder.Registers.Numbers.{reg_field-lt}
use nazm.Encoder.Bytes.{rex_required}
use nazm.Encoder.Operands.{Operand, reg, mem_disp}
use nazm.Encoder.Emit.{rf, extension_bit, rex_forced, valid_integer_width}
use nazm.Encoder.Emit.Helpers.{emit_rr-Adds, emit_mem-Adds}
use nazm.Encoder.Decode.{Head, Rm, extend, gpr, read_modrm, read_head}
use nazm.Encoder.Decode.Address.{read_modrm-direct, read_modrm-mem_address_end}
use nazm.Encoder.Decode.Heads.{is_prefix, read_head-emitted}
use nazm.Encoder.Decode.Names.{gpr-extend}
use nazm.Encoder.Decode.Instruction.{width_of, width_from, rm_operand, read_operands}

-- The opcode is of the width, and no prefix.
pub record Suits (width opcode : ℕ) : Type 0 where
  pub valid : valid_integer_width width ≡ true
  pub parity : (opcode % 2 == 0) ≡ (width == 8)
  pub plain : is_prefix opcode ≡ false

-- REX is there wherever one of the registers asks for it.
rex_present :
    (r rm : RegId) (width : ℕ) (others : Bool)
    → valid_integer_width width ≡ true
    → reg_width_bits r ≡ width
    → (r == reg_invalid) ≡ false
    → ((rex_forced width r rm || others) ≡ true) ⊎ (reg_requires_rex_byte r ≡ false)
unfolding rex_forced reg_requires_rex_byte
rex_present r rm width others v h n = ground arith

rex_present_rm :
    (r rm : RegId) (width : ℕ) (others : Bool)
    → valid_integer_width width ≡ true
    → reg_width_bits rm ≡ width
    → (rm == reg_invalid) ≡ false
    → ((rex_forced width r rm || others) ≡ true) ⊎ (reg_requires_rex_byte rm ≡ false)
unfolding rex_forced reg_requires_rex_byte
rex_present_rm r rm width others v h n = ground arith

not_invalid :
    (r : RegId) → valid_integer_width (reg_width_bits r) ≡ true → (r == reg_invalid) ≡ false
unfolding valid_integer_width reg_width_bits
not_invalid r h = ground arith

width_from-Suits :
    (width opcode : ℕ) → Suits width opcode → width_from opcode (width == 64) (width == 16) ≡ width
unfolding valid_integer_width
width_from-Suits width opcode s = ground (arith, s.valid, s.parity)

-- `read_operands` once its parts are known.
read_operands-parts :
    (bytes rest : List ℕ) (h : Head) (n : ℕ) (rm : Rm) (width : ℕ) (r : RegId) (operand : Operand)
    → read_head bytes ≡ some h
    → read_modrm h.rex_r h.rex_b h.rest ≡ some (n, rm, rest)
    → width_of h ≡ width
    → gpr width h.has_rex n ≡ some r
    → rm_operand width h.has_rex rm ≡ some operand
    → read_operands bytes ≡ some (h.opcode, r, operand, rest)
unfolding read_operands
read_operands-parts bytes rest h n rm width r operand e1 e2 e3 e4 e5 = rw (e1, e2, e3, e4, e5)

-- REX's presence as `emit_rex_for_width` decides it.
abbrev rex_there : ℕ → RegId → RegId → Bool
rex_there width r rm =
    rex_forced width r rm || rex_required (width == 64) (extension_bit r) false (extension_bit rm)

module _ (width : ℕ) (valid : valid_integer_width width ≡ true) (r : RegId)
    (same : reg_width_bits r ≡ width) where
  r_valid : valid_integer_width (reg_width_bits r) ≡ true
  r_valid = rw same valid

  gpr-reg :
      (rm : RegId) → gpr width (rex_there width r rm) (extend (extension_bit r) (rf r)) ≡ some r
  gpr-reg rm = rw same at (
      gpr-extend r (rex_there width r rm) r_valid
        (rex_present r rm width _ valid same (not_invalid r r_valid)))

  gpr-rm :
      (other : RegId)
      → gpr width (rex_there width other r) (extend (extension_bit r) (rf r)) ≡ some r
  gpr-rm other = rw same at (
      gpr-extend r (rex_there width other r) r_valid
        (rex_present_rm other r width _ valid same (not_invalid r r_valid)))

-- A base register has 64 bits, which REX's presence does not change.
gpr-base :
    (base : RegId) (has_rex : Bool)
    → reg_width_bits base ≡ 64
    → gpr 64 has_rex (extend (extension_bit base) (rf base)) ≡ some base
unfolding gpr reg_width_bits reg_needs_rex reg_field reg_index extension_bit
gpr-base base has_rex h = ground arith

module _ (opcode : ℕ) (r : RegId) (width : ℕ) (same : reg_width_bits r ≡ width)
    (s : Suits width opcode) where
  -- A register in each field.
  pub read_operands-rr :
      (dst : RegId)
      → reg_width_bits dst ≡ width
      → read_operands (emit_rr-Adds opcode dst r width).added ≡ some (opcode, r, reg dst, [])
  unfolding rm_operand
  read_operands-rr dst same_dst =
      read_operands-parts _ [] _ _ _ width r (reg dst)
        (read_head-emitted (width == 16) (rex_forced width r dst) (width == 64) (extension_bit r)
          (extension_bit dst) opcode _ s.plain)
        (read_modrm-direct _ _ (rf r) (rf dst) [] (reg_field-lt r) (reg_field-lt dst))
        (width_from-Suits width opcode s) (gpr-reg width s.valid r same dst)
        (rw (gpr-rm width s.valid dst same_dst r))

  -- A register and an address.
  pub read_operands-mem :
      (base : RegId) (disp : ℤ)
      → reg_width_bits base ≡ 64
      → IsI32 disp
      → read_operands (emit_mem-Adds opcode r base disp width).added
        ≡ some (opcode, r, mem_disp base disp, [])
  unfolding rm_operand
  read_operands-mem base disp hb hd =
      read_operands-parts _ [] _ _ _ width r (mem_disp base disp)
        (read_head-emitted (width == 16) (rex_forced width r base) (width == 64) (extension_bit r)
          (extension_bit base) opcode _ s.plain)
        (read_modrm-mem_address_end _ _ (rf r) base disp (reg_field-lt r) hd)
        (width_from-Suits width opcode s) (gpr-reg width s.valid r same base)
        (rw (gpr-base base (rex_there width r base) hb))
