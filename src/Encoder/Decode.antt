-- ===== src/Encoder/Decode.antt =====
-- An independent reader of the x86-64 instruction format, for the forms that the encoder emits:
-- the prefix 66, REX, one opcode byte, ModRM, SIB and the displacement, as the architecture
-- manual defines them. It is the specification that the encoders are held to.
pub mod Fields
pub mod Numbers
pub mod Address
pub mod Heads
pub mod Names
pub mod Instruction
pub mod Operands
pub mod RoundTrip
pub mod Rows
pub mod Encoders
pub mod Jumps
use nazm.Prelude.{
  ℕ, ◌+◌, ◌*◌, ◌/◌, ◌%◌, Bool, true, false, ◌&&◌, ◌||◌, not, List, [], ◌∷◌, Option, none, some, ltb,
  leb, ◌==◌, if◌then◌else◌, ℤ, pos, of_bits,
}
use nazm.Encoder.Registers.{RegId}

-- What the r/m field of ModRM stands for: a register number, or an address.
pub data Rm : Type 0 where
  direct : ℕ → Rm
  indirect : ℕ → ℤ → Rm
  rip_relative : ℤ → Rm

-- A little-endian number of one or four bytes, read in two's complement.
unfoldable pub read_disp8 : List ℕ → Option (ℤ × List ℕ)
read_disp8 (a ∷ rest) = some (of_bits 8 a, rest)
read_disp8 _ = none

unfoldable pub read_disp32 : List ℕ → Option (ℤ × List ℕ)
read_disp32 (a ∷ b ∷ c ∷ d ∷ rest) =
    some (of_bits 32 (a + b * 0x100 + c * 0x1_0000 + d * 0x100_0000), rest)
read_disp32 _ = none

-- The displacement that `mod` announces.
unfoldable pub read_disp : ℕ → List ℕ → Option (ℤ × List ℕ)
unfolding read_disp8 read_disp32
read_disp mode rest =
    if mode == 0
    then some (pos 0, rest)
    else if mode == 1
    then read_disp8 rest
    else read_disp32 rest

abbrev pub extend : Bool → ℕ → ℕ
extend bit field = if bit then 8 + field else field

abbrev pub with_base : ℕ → Option (ℤ × List ℕ) → Option (Rm × List ℕ)
with_base base none = none
with_base base (some (disp, rest)) = some (indirect base disp, rest)

abbrev pub rip_with : Option (ℤ × List ℕ) → Option (Rm × List ℕ)
rip_with none = none
rip_with (some (disp, rest)) = some (rip_relative disp, rest)

-- SIB with no index, behind ModRM with the given `mod`. No base at `mod` 0 is not read.
unfoldable pub read_sib : Bool → ℕ → List ℕ → Option (Rm × List ℕ)
read_sib rex_b mode [] = none
read_sib rex_b mode (s ∷ rest) =
    if not (s / 8 % 8 == 4) || mode == 0 && s % 8 == 5
    then none
    else with_base (extend rex_b (s % 8)) (read_disp mode rest)

unfoldable pub read_rm : Bool → ℕ → ℕ → List ℕ → Option (Rm × List ℕ)
read_rm rex_b mode rm rest =
    if mode == 3
    then some (direct (extend rex_b rm), rest)
    else if rm == 4
    then read_sib rex_b mode rest
    else if mode == 0 && rm == 5
    then rip_with (read_disp32 rest)
    else with_base (extend rex_b rm) (read_disp mode rest)

abbrev pub with_reg : ℕ → Option (Rm × List ℕ) → Option (ℕ × Rm × List ℕ)
with_reg reg none = none
with_reg reg (some (rm, rest)) = some (reg, rm, rest)

-- ModRM, SIB and displacement, with the extension bits of REX: the number in `reg`, the operand
-- in `rm`, and what follows.
unfoldable pub read_modrm : Bool → Bool → List ℕ → Option (ℕ × Rm × List ℕ)
read_modrm rex_r rex_b [] = none
read_modrm rex_r rex_b (m ∷ rest) =
    with_reg (extend rex_r (m / 8 % 8)) (read_rm rex_b (m / 64) (m % 8) rest)

-- What stands before ModRM.
pub record Head : Type 0 where
  pub operand_16 : Bool
  pub has_rex : Bool
  pub rex_w : Bool
  pub rex_r : Bool
  pub rex_b : Bool
  pub opcode : ℕ
  pub rest : List ℕ

abbrev bit : ℕ → ℕ → Bool
bit x place = x / place % 2 == 1

unfoldable pub read_opcode : Bool → List ℕ → Option Head
read_opcode p [] = none
read_opcode p (x ∷ rest) = some (record {
  operand_16 = p;
  has_rex = false;
  rex_w = false;
  rex_r = false;
  rex_b = false;
  opcode = x;
  rest = rest;
})

unfoldable pub read_after_rex : Bool → ℕ → List ℕ → Option Head
read_after_rex p x [] = none
read_after_rex p x (y ∷ rest) = some (record {
  operand_16 = p;
  has_rex = true;
  rex_w = bit x 8;
  rex_r = bit x 4;
  rex_b = bit x 1;
  opcode = y;
  rest = rest;
})

unfoldable pub read_rex : Bool → List ℕ → Option Head
unfolding read_opcode read_after_rex
read_rex p [] = none
read_rex p (x ∷ rest) =
    if leb 0x40 x && ltb x 0x50 then read_after_rex p x rest else read_opcode p (x ∷ rest)

unfoldable pub read_head : List ℕ → Option Head
unfolding read_rex
read_head [] = none
read_head (x ∷ rest) = if x == 0x66 then read_rex true rest else read_rex false (x ∷ rest)

-- The general register of a width with a number. Without REX the 8-bit numbers 4 to 7 are AH, CH,
-- DH and BH, which Nazm does not name.
unfoldable pub gpr : ℕ → Bool → ℕ → Option RegId
gpr width has_rex n =
    if width == 64
    then some n
    else if width == 32
    then some (16 + n)
    else if width == 16
    then some (32 + n)
    else if not has_rex && (leb 4 n && ltb n 8)
    then none
    else some (48 + n)
