-- ===== src/Encoder/Decode/Names.antt =====
-- A register number with its width and the presence of REX names the register again.
use nazm.Prelude.{◌≡◌, ◌⊎◌, Bool, true, false, some, arith}
use nazm.Encoder.Registers.{
  RegId, reg_width_bits, reg_needs_rex, reg_requires_rex_byte, reg_field, reg_index,
}
use nazm.Encoder.Emit.{valid_integer_width, extension_bit}
use nazm.Encoder.Decode.{gpr, extend}

pub gpr-extend :
    (r : RegId) (has_rex : Bool)
    → valid_integer_width (reg_width_bits r) ≡ true
    → (has_rex ≡ true) ⊎ (reg_requires_rex_byte r ≡ false)
    → gpr (reg_width_bits r) has_rex (extend (extension_bit r) (reg_field r)) ≡ some r
unfolding gpr valid_integer_width reg_width_bits reg_needs_rex reg_requires_rex_byte reg_field
    reg_index extension_bit
gpr-extend r has_rex h rex = ground arith
