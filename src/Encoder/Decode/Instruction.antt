-- ===== src/Encoder/Decode/Instruction.antt =====
-- The reader of a whole instruction with ModRM and no immediate: operation and operands, from the
-- opcode map of the architecture manual.
use nazm.Prelude.{
  ℕ, ◌-◌, ◌%◌, Bool, true, false, List, [], ◌∷◌, Option, none, some, ◌==◌, if◌then◌else◌,
}
use nazm.Encoder.Registers.{RegId}
use nazm.Encoder.Operands.{Operand, reg, mem_disp}
use nazm.Encoder.Opcodes.{Opcode, mov, add, or, and, sub, xor, cmp, test, lea}
use nazm.Encoder.Decode.{Rm, direct, indirect, rip_relative, read_modrm, Head, read_head, gpr}

-- Bit 0 of these opcodes is clear at width 8; else REX.W and the prefix 66 give the width.
abbrev pub width_from : ℕ → Bool → Bool → ℕ
width_from opcode rex_w operand_16 =
    if opcode % 2 == 0 then 8 else if rex_w then 64 else if operand_16 then 16 else 32

abbrev pub width_of : Head → ℕ
width_of h = width_from h.opcode h.rex_w h.operand_16

-- The operation, and whether the operand of the field `reg` is the destination. The opcodes of
-- the two widths, such as 88 and 89, stand in one row.
abbrev row : ℕ → ℕ → Bool
row x code = x - x % 2 == code

unfoldable pub meaning : ℕ → Option (Opcode × Bool)
meaning x =
    if row x 0x00
    then some (add, false)
    else if row x 0x02
    then some (add, true)
    else if row x 0x08
    then some (or, false)
    else if row x 0x0A
    then some (or, true)
    else if row x 0x20
    then some (and, false)
    else if row x 0x22
    then some (and, true)
    else if row x 0x28
    then some (sub, false)
    else if row x 0x2A
    then some (sub, true)
    else if row x 0x30
    then some (xor, false)
    else if row x 0x32
    then some (xor, true)
    else if row x 0x38
    then some (cmp, false)
    else if row x 0x3A
    then some (cmp, true)
    else if row x 0x84
    then some (test, false)
    else if row x 0x88
    then some (mov, false)
    else if row x 0x8A
    then some (mov, true)
    else if x == 0x8D
    then some (lea, true)
    else none

infixl 5 ◌>>=◌
abbrev pub ◌>>=◌ : {A B : Type 0} → Option A → (A → Option B) → Option B
none >>= f = none
some a >>= f = f a

unfoldable pub rm_operand : ℕ → Bool → Rm → Option Operand
rm_operand width has_rex (direct n) = do r ← gpr width has_rex n; some (reg r)
rm_operand width has_rex (indirect base disp) = do r ← gpr 64 has_rex base; some (mem_disp r disp)
rm_operand width has_rex (rip_relative disp) = none

-- The opcode, the register of the field `reg`, the operand of `rm`, and the bytes behind.
unfoldable pub read_operands : List ℕ → Option (ℕ × RegId × Operand × List ℕ)
read_operands bytes = do
  h ← read_head bytes
  (n, rm, rest) ← read_modrm h.rex_r h.rex_b h.rest
  r ← gpr (width_of h) h.has_rex n
  operand ← rm_operand (width_of h) h.has_rex rm
  some (h.opcode, r, operand, rest)

abbrev pub in_order : Bool → RegId → Operand → List Operand
in_order reg_first r operand = if reg_first then reg r ∷ operand ∷ [] else operand ∷ reg r ∷ []

unfoldable pub decode_instruction : List ℕ → Option (Opcode × List Operand × List ℕ)
unfolding read_operands meaning
decode_instruction bytes = do
  (opcode, r, operand, rest) ← read_operands bytes
  (op, reg_first) ← meaning opcode
  some (op, in_order reg_first r operand, rest)
