-- ===== src/Encoder/Operands.antt =====
-- The operands of encoder/encoder.h. The line and column fields serve the diagnostics, and the
-- encoder does not read them; a length comes with its text.
use nazm.Prelude.{ℕ, List, ℤ}
use nazm.Encoder.Registers.{RegId}

-- A C string, as its bytes.
abbrev pub Text : Type 0
Text = List ℕ

-- `OperandKind` with the member of the union that it selects. [reg] leaves `disp` unread.
pub data Operand : Type 0 where
  none : Operand
  reg : RegId → Operand
  imm : ℤ → Operand
  mem_reg : RegId → Operand
  mem_disp : RegId → ℤ → Operand
  mem_rip_label : Text → Operand
  label : Text → Operand
  string : Text → Operand
