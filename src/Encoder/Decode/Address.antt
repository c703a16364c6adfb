-- ===== src/Encoder/Decode/Address.antt =====
-- ModRM, SIB and the displacement that `emit_mem_address` appends read back as the address.
use nazm.Prelude.{
  ℕ, ◌+◌, ◌<◌, ◌≤◌, ◌≡◌, refl, ap, ◌∙◌, Bool, true, false, ◌==◌, Bool-cases, ◌⊎◌, inl, inr, List,
  [], ◌∷◌, ◌++◌, append_assoc, append-nil, length, some, if◌then◌else◌, ℤ, pos, eq_ℤ, to_u8, IsI8,
  IsI32, arith,
}
use nazm.Encoder.Registers.{RegId}
use nazm.Encoder.Registers.Numbers.{reg_field-lt}
use nazm.Encoder.Bytes.{modrm_byte, sib_byte}
use nazm.Encoder.Emit.{Buf, rf, emit_mem_address}
use nazm.Encoder.Emit.Helpers.{emit32-Adds, emit_mem_address-Adds, no_disp, short_disp}
use nazm.Encoder.Decode.Fields.{modrm_byte_fields, sib_byte_lem}
use nazm.Encoder.Decode.Numbers.{read_disp8_lem, read_disp2_lem}
use nazm.Encoder.Decode.{
  indirect, direct, read_disp, extend, with_base, with_reg, read_sib, read_rm, read_modrm,
}

-- ModRM with a register operand in `rm`.
pub read_modrm-direct :
    (rex_r rex_b : Bool) (reg rm : ℕ) (rest : List ℕ)
    → reg < 8
    → rm < 8
    → read_modrm rex_r rex_b (modrm_byte 3 reg rm ∷ rest)
      ≡ some (extend rex_r reg, direct (extend rex_b rm), rest)
unfolding read_modrm read_rm
read_modrm-direct rex_r rex_b reg rm rest hr hm =
    rw (modrm_byte_fields 3 reg rm (omega arith) hr hm) (ground arith)

-- ModRM with `mod` below 3 and the base `field`, then SIB where the field is 4.
read_modrm-base :
    (rex_r rex_b : Bool) (mode reg field : ℕ) (rest : List ℕ)
    → mode < 3
    → reg < 8
    → field < 8
    → ((mode == 0) ≡ false) ⊎ ((field == 5) ≡ false)
    → read_modrm rex_r rex_b (
        modrm_byte mode reg (if field == 4 then 4 else field)
          ∷ (if field == 4 then sib_byte 0 4 field ∷ [] else [])
        ++ rest)
      ≡ with_reg (extend rex_r reg) (with_base (extend rex_b field) (read_disp mode rest))
unfolding read_modrm read_rm read_sib
read_modrm-base rex_r rex_b mode reg field rest hm hr hf five = elim (Bool-cases (field == 4)) [
  | inl four ↦
      rw
        (
          four,
          sib_byte_lem,
          modrm_byte_fields mode reg 4 (omega arith) hr (omega arith),
          modrm_byte_fields 0 4 field (omega arith) (omega arith) hf,
        )
        (ground arith)
  | inr other ↦ rw (other, modrm_byte_fields mode reg field (omega arith) hr hf) (ground arith)
]

eq_ℤ→eq : (a b : ℤ) → eq_ℤ a b ≡ true → a ≡ b
eq_ℤ→eq a b h = ground arith

short_disp→IsI8 : (v : ℤ) → short_disp v ≡ true → IsI8 v
short_disp→IsI8 v h = ground arith

abbrev sib_bytes : RegId → List ℕ
sib_bytes base = if rf base == 4 then sib_byte 0 4 (rf base) ∷ [] else []

-- Whatever stands behind the address is left for the reader of the immediate.
pub read_modrm-mem_address :
    (rex_r rex_b : Bool) (reg : ℕ) (base : RegId) (disp : ℤ) (rest : List ℕ)
    → reg < 8
    → IsI32 disp
    → read_modrm rex_r rex_b ((emit_mem_address-Adds reg base disp).added ++ rest)
      ≡ some (extend rex_r reg, indirect (extend rex_b (rf base)) disp, rest)
read_modrm-mem_address rex_r rex_b reg base disp rest hr hd =
    elim (Bool-cases (no_disp base disp)) [
      | inl none ↦ rw none (
          read_modrm-base rex_r rex_b 0 reg (rf base) rest (omega arith) hr (reg_field-lt base)
            (inr (ground arith))
          ∙ (rw (eq_ℤ→eq disp (pos 0) (ground arith)) (unfold read_disp in refl)))
      | inr some_disp ↦ elim (Bool-cases (short_disp disp)) [
        | inl short ↦
            rw (some_disp, short, append_assoc (sib_bytes base) (to_u8 disp ∷ []) rest)
              (read_modrm-base rex_r rex_b 1 reg (rf base) (to_u8 disp ∷ rest) (omega arith) hr
                  (reg_field-lt base) (inl refl)
                ∙ rw (read_disp8_lem disp rest (short_disp→IsI8 disp short)))
        | inr long ↦
            rw (some_disp, long, append_assoc (sib_bytes base) (emit32-Adds disp).added rest)
              (read_modrm-base rex_r rex_b 2 reg (rf base) _ (omega arith) hr (reg_field-lt base)
                  (inl refl)
                ∙ ap (λ d. with_reg (extend rex_r reg) (with_base (extend rex_b (rf base)) d))
                    (read_disp2_lem disp rest hd))
      ]
    ]

pub read_modrm-mem_address_end :
    (rex_r rex_b : Bool) (reg : ℕ) (base : RegId) (disp : ℤ)
    → reg < 8
    → IsI32 disp
    → read_modrm rex_r rex_b (emit_mem_address-Adds reg base disp).added
      ≡ some (extend rex_r reg, indirect (extend rex_b (rf base)) disp, [])
read_modrm-mem_address_end rex_r rex_b reg base disp hr hd =
    rw (append-nil (emit_mem_address-Adds reg base disp).added) at
      (read_modrm-mem_address rex_r rex_b reg base disp [] hr hd)

-- With a register field below 8 and a displacement of an int32_t, in a buffer with six bytes of room,
-- `emit_mem_address` appends an address that reads back, under any extension bits of REX and
-- whatever follows it, as that register field, the base's field and the displacement.
pub read-emit_mem_address :
    (rex_r rex_b : Bool) (modrm_reg : ℕ) (base : RegId) (disp : ℤ) (b : Buf) (rest : List ℕ)
    → modrm_reg < 8
    → IsI32 disp
    → length b + 6 ≤ 15
    → (bytes : List ℕ) × (emit_mem_address modrm_reg base disp b ≡ b ++ bytes)
      × (read_modrm rex_r rex_b (bytes ++ rest)
          ≡ some (extend rex_r modrm_reg, indirect (extend rex_b (rf base)) disp, rest))
read-emit_mem_address rex_r rex_b modrm_reg base disp b rest hr hd room =
    let p = emit_mem_address-Adds modrm_reg base disp in
    (p.added, p.appends b room, read_modrm-mem_address rex_r rex_b modrm_reg base disp rest hr hd)
