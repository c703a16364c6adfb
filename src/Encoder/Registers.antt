-- ===== src/Encoder/Registers.antt =====
-- The register identities of encoder/encoder.h and their metadata in encoder/modrm.c.
pub mod Numbers
use nazm.Prelude.{
  ℕ, ◌-◌, ◌%◌, Bool, ◌&&◌, ltb, leb, ◌==◌, if◌then◌else◌, ℤ, pos, negsuc, leb_ℤ, pos_part,
}

-- `RegId` is an enumeration whose values the code orders and subtracts, so it is its number here.
abbrev pub RegId : Type 0
RegId = ℕ

abbrev pub reg_rax : RegId
reg_rax = 0

abbrev pub reg_rcx : RegId
reg_rcx = 1

abbrev pub reg_r15 : RegId
reg_r15 = 15

abbrev pub reg_eax : RegId
reg_eax = 16

abbrev pub reg_r15d : RegId
reg_r15d = 31

abbrev pub reg_ax : RegId
reg_ax = 32

abbrev pub reg_r15w : RegId
reg_r15w = 47

abbrev pub reg_al : RegId
reg_al = 48

abbrev pub reg_cl : RegId
reg_cl = 49

abbrev pub reg_r15b : RegId
reg_r15b = 63

abbrev pub reg_xmm0 : RegId
reg_xmm0 = 64

abbrev pub reg_xmm15 : RegId
reg_xmm15 = 79

abbrev pub reg_invalid : RegId
reg_invalid = 0xff

-- `first <= r && r <= last`
abbrev within : RegId → RegId → RegId → Bool
within first last r = leb first r && leb r last

unfoldable pub reg_index : RegId → ℤ
reg_index r =
    if within reg_rax reg_r15 r
    then pos (r - reg_rax)
    else if within reg_eax reg_r15d r
    then pos (r - reg_eax)
    else if within reg_ax reg_r15w r
    then pos (r - reg_ax)
    else if within reg_al reg_r15b r
    then pos (r - reg_al)
    else if within reg_xmm0 reg_xmm15 r
    then pos (r - reg_xmm0)
    else negsuc 0

-- The width in bits; 0 for no register.
unfoldable pub reg_width_bits : RegId → ℕ
reg_width_bits r =
    if within reg_rax reg_r15 r
    then 64
    else if within reg_eax reg_r15d r
    then 32
    else if within reg_ax reg_r15w r
    then 16
    else if within reg_al reg_r15b r
    then 8
    else if within reg_xmm0 reg_xmm15 r
    then 128
    else 0

unfoldable pub reg_is_gpr : RegId → Bool
reg_is_gpr r = within reg_rax reg_r15b r

unfoldable pub reg_is_xmm : RegId → Bool
reg_is_xmm r = within reg_xmm0 reg_xmm15 r

unfoldable pub reg_needs_rex : RegId → Bool
unfolding reg_index
reg_needs_rex r = leb_ℤ (pos 8) (reg_index r)

-- An 8-bit register whose number is 4 or more, which without REX would be AH, CH, DH or BH.
unfoldable pub reg_requires_rex_byte : RegId → Bool
unfolding reg_index reg_width_bits
reg_requires_rex_byte r = reg_width_bits r == 8 && leb_ℤ (pos 4) (reg_index r)

-- The three bits of the register's number that ModRM, SIB or the opcode holds.
unfoldable pub reg_field : RegId → ℕ
unfolding reg_index
reg_field r = if leb_ℤ (pos 0) (reg_index r) then pos_part (reg_index r) % 8 else 0
