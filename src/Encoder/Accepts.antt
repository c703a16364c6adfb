-- ===== src/Encoder/Accepts.antt =====
-- Which immediates the encoders of encoder/table.c take.
use nazm.Prelude.{
  ℕ, ◌≡◌, ◌↔◌, ◌⊎◌, refl, Bool, true, false, not, ◌||◌, ◌==◌, if◌then◌else◌, Bool-cases, inl, inr,
  ℤ, pos, negsuc, ◌≤ℤ◌, IsI32, IsI64, arith,
}
use nazm.Encoder.Registers.{RegId, reg_width_bits}
use nazm.Encoder.Bytes.{immediate_fits_i32}
use nazm.Encoder.Emit.{
  Emit, make_error, valid_integer_width, encoded, exceeds_8, exceeds_16, exceeds_32,
  immediate_rejected,
}
use nazm.Encoder.Mov.{mov_imm}
use nazm.Encoder.Arith.{alu_imm, test_imm}

-- The value is a signed or an unsigned number of 8, 16 or 32 bits, the width.
abbrev pub FitsWidth : ℕ → ℤ → Type 0
FitsWidth w v =
    (w ≡ 8) × (negsuc 0x7f ≤ℤ v) × (v ≤ℤ pos 0xff)
    ⊎ (w ≡ 16) × (negsuc 0x7fff ≤ℤ v) × (v ≤ℤ pos 0xffff)
    ⊎ (w ≡ 32) × (negsuc 0x7fff_ffff ≤ℤ v) × (v ≤ℤ pos 0xffff_ffff)

encoded-error : (f : Emit) → (encoded f).error ≡ false
unfolding encoded
encoded-error f = refl

checked-error : (c : Bool) (f : Emit) → (if c then make_error else encoded f).error ≡ c
checked-error true f = refl
checked-error false f = encoded-error f

either-error : (c : Bool) (f g : Emit) → (if c then encoded f else encoded g).error ≡ false
either-error true f g = encoded-error f
either-error false f g = encoded-error g

mov_imm-error :
    (dst : RegId) (v : ℤ)
    → (mov_imm dst v).error ≡ (
        if not (valid_integer_width (reg_width_bits dst))
        then true
        else if reg_width_bits dst == 8
        then exceeds_8 v
        else if reg_width_bits dst == 16
        then exceeds_16 v
        else if reg_width_bits dst == 32
        then exceeds_32 v
        else false)
unfolding mov_imm
mov_imm-error dst v = elim (Bool-cases (not (valid_integer_width (reg_width_bits dst)))) [
  | inl bad ↦ rw bad refl
  | inr ok ↦ elim (Bool-cases (reg_width_bits dst == 8)) [
    | inl w ↦ rw (ok, w) (checked-error (exceeds_8 v) _)
    | inr w8 ↦ elim (Bool-cases (reg_width_bits dst == 16)) [
      | inl w ↦ rw (ok, w8, w) (checked-error (exceeds_16 v) _)
      | inr w16 ↦ elim (Bool-cases (reg_width_bits dst == 32)) [
        | inl w ↦ rw (ok, w8, w16, w) (checked-error (exceeds_32 v) _)
        | inr w32 ↦ rw (ok, w8, w16, w32) (either-error (immediate_fits_i32 v) _ _)
      ]
    ]
  ]
]

mov_decides :
    (w : ℕ) (v : ℤ)
    → IsI64 v
    → ((if not (valid_integer_width w)
          then true
          else if w == 8
          then exceeds_8 v
          else if w == 16
          then exceeds_16 v
          else if w == 32
          then exceeds_32 v
          else false)
        ≡ false)
      ↔ ((w ≡ 64) ⊎ FitsWidth w v)
unfolding valid_integer_width
mov_decides w v h = ground arith

-- MOV takes an immediate of 64 bits exactly when the register has 64 bits, or has 8, 16 or 32 and
-- the value is a signed or an unsigned number of that width.
pub mov_imm_accepts :
    (dst : RegId) (v : ℤ)
    → IsI64 v
    → ((mov_imm dst v).error ≡ false)
      ↔ ((reg_width_bits dst ≡ 64) ⊎ FitsWidth (reg_width_bits dst) v)
mov_imm_accepts dst v h = rw (mov_imm-error dst v) (mov_decides (reg_width_bits dst) v h)

immediate_decides :
    (w : ℕ) (v : ℤ)
    → IsI64 v
    → ((not (valid_integer_width w) || immediate_rejected w v) ≡ false)
      ↔ ((w ≡ 64) × IsI32 v ⊎ FitsWidth w v)
unfolding valid_integer_width immediate_fits_i32
immediate_decides w v h = ground arith

-- The operations of the ALU group, with any digit, and TEST take an immediate of 64 bits exactly
-- when the register has 64 bits and the value is an int32_t, which is extended by its sign, or the
-- register has 8, 16 or 32 bits and the value is a signed or an unsigned number of that width.
pub immediates_accept :
    (r : RegId) (v : ℤ) (ri_ext : ℕ)
    → IsI64 v
    → (((alu_imm r v ri_ext).error ≡ false)
        ↔ ((reg_width_bits r ≡ 64) × IsI32 v ⊎ FitsWidth (reg_width_bits r) v))
      × (((test_imm r v).error ≡ false)
          ↔ ((reg_width_bits r ≡ 64) × IsI32 v ⊎ FitsWidth (reg_width_bits r) v))
unfolding alu_imm test_imm
immediates_accept r v ri_ext h =
    let w = reg_width_bits r in
    let c = not (valid_integer_width w) || immediate_rejected w v in
    (
      rw (checked-error c _) (immediate_decides w v h),
      rw (checked-error c _) (immediate_decides w v h),
    )
