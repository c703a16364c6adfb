-- ===== src/Encoder/Registers/Numbers.antt =====
-- A register is determined by its width and its number, and the number by the three-bit field and
-- the extension bit of REX.
use nazm.Prelude.{
  ℕ, ◌+◌, ◌<◌, ◌≡◌, true, ◌==◌, if◌then◌else◌, ◌≢◌, ◌↔◌, pos, pos_part, sym, ◌∙◌, arith,
}
use nazm.Encoder.Registers.{
  RegId, reg_index, reg_width_bits, reg_is_gpr, reg_is_xmm, reg_needs_rex, reg_field,
}

pub reg_field-lt : (r : RegId) → reg_field r < 8
unfolding reg_field
reg_field-lt r = ground arith

-- The number of an identity with a width is the three bits that `reg_field` gives, and 8 more when
-- `reg_needs_rex` holds.
pub reg_index-field :
    (r : RegId)
    → reg_width_bits r ≢ 0
    → reg_index r ≡ pos (reg_field r + (if reg_needs_rex r then 8 else 0))
unfolding reg_index reg_width_bits reg_field reg_needs_rex
reg_index-field r h = ground arith

-- The first identity of each width.
abbrev first_of_width : ℕ → RegId
first_of_width width =
    if width == 64
    then 0
    else if width == 32
    then 16
    else if width == 16
    then 32
    else if width == 8
    then 48
    else 64

reg_index-first :
    (r : RegId)
    → reg_width_bits r ≢ 0
    → r ≡ first_of_width (reg_width_bits r) + pos_part (reg_index r)
unfolding reg_index reg_width_bits
reg_index-first r h = ground arith

-- Two identities of one width, which is not 0, with one number are the same.
pub reg_index_injective :
    (r s : RegId)
    → reg_width_bits r ≢ 0
    → reg_width_bits r ≡ reg_width_bits s
    → reg_index r ≡ reg_index s
    → r ≡ s
reg_index_injective r s h w e =
    reg_index-first r h ∙ rw (w, e) (sym (reg_index-first s (rw (← w) h)))

-- An identity is a general register exactly when it has a width other than 128, and an XMM register
-- exactly when its width is 128.
pub reg_classes :
    (r : RegId)
    → ((reg_is_gpr r ≡ true) ↔ ((reg_width_bits r ≢ 0) × (reg_width_bits r ≢ 128)))
      × ((reg_is_xmm r ≡ true) ↔ (reg_width_bits r ≡ 128))
unfolding reg_is_gpr reg_is_xmm reg_width_bits
reg_classes r = ground arith
