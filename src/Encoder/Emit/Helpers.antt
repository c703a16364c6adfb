-- ===== src/Encoder/Emit/Helpers.antt =====
-- What the helpers of encoder/table.c append.
use nazm.Prelude.{
  ℕ, ◌≡◌, refl, Bool, false, ◌&&◌, ◌||◌, not, ◌==◌, if◌then◌else◌, ℤ, pos, negsuc, eq_ℤ, leb_ℤ,
  to_u8, shr_ℤ,
}
use nazm.Encoder.Registers.{RegId, reg_invalid, reg_width_bits, reg_requires_rex_byte}
use nazm.Encoder.Bytes.{rex_byte, rex_required, modrm_byte, sib_byte}
use nazm.Encoder.Emit.{
  Emit, ◌>>◌, skip, emit, emit_rex, rex_r, rex_b, rf, extension_bit, rex_forced, emit_rex_for_width,
  emit_width_prefix, emit_rex_for_extension, emit32, emit64_loop, emit64, emit_mem_address, emit_rr,
  emit_mem, emit_rip_relative_mem,
}
use nazm.Encoder.Emit.Adds.{Adds, emit-Adds, skip-Adds, seq-Adds, if-Adds, via}

-- The parts of the address that follow the choice of `mod`.
abbrev pub sib_part : RegId → Emit
sib_part base = if rf base == 4 then emit (sib_byte 0 4 (rf base)) else skip

abbrev pub modrm_part : ℕ → ℕ → RegId → Emit
modrm_part mode modrm_reg base =
    emit (modrm_byte mode modrm_reg (if rf base == 4 then 4 else rf base))

module _ (w r x b : Bool) where
  pub emit_rex_lem :
      emit_rex w r x b ≡ (if rex_required w r x b then emit (rex_byte w r x b) else skip)
  unfolding emit_rex
  emit_rex_lem = refl

  abbrev pub emit_rex-Adds : Adds (emit_rex w r x b)
  emit_rex-Adds = via emit_rex_lem (if-Adds _ _ _ (emit-Adds _) skip-Adds)

pub emit_rex_for_width_lem :
    (width : ℕ) (reg rm : RegId)
    → emit_rex_for_width width reg rm ≡ (
        if rex_forced width reg rm
          || rex_required (width == 64) (extension_bit reg) false (extension_bit rm)
        then emit (rex_byte (width == 64) (extension_bit reg) false (extension_bit rm))
        else skip)
unfolding emit_rex_for_width
emit_rex_for_width_lem width reg rm = refl

abbrev pub emit_rex_for_width-Adds :
    (width : ℕ) (reg rm : RegId) → Adds (emit_rex_for_width width reg rm)
emit_rex_for_width-Adds width reg rm =
    via (emit_rex_for_width_lem width reg rm) (if-Adds _ _ _ (emit-Adds _) skip-Adds)

pub emit_width_prefix_lem :
    (width : ℕ) → emit_width_prefix width ≡ (if width == 16 then emit 0x66 else skip)
unfolding emit_width_prefix
emit_width_prefix_lem width = refl

abbrev pub emit_width_prefix-Adds : (width : ℕ) → Adds (emit_width_prefix width)
emit_width_prefix-Adds width =
    via (emit_width_prefix_lem width) (if-Adds _ _ _ (emit-Adds _) skip-Adds)

pub emit_rex_for_extension_lem :
    (width : ℕ) (destination source : RegId)
    → emit_rex_for_extension width destination source ≡ (
        if reg_width_bits source == 8 && reg_requires_rex_byte source
          || rex_required (width == 64) (rex_r destination) false (rex_b source)
        then emit (rex_byte (width == 64) (rex_r destination) false (rex_b source))
        else skip)
unfolding emit_rex_for_extension
emit_rex_for_extension_lem width destination source = refl

abbrev pub emit_rex_for_extension-Adds :
    (width : ℕ) (destination source : RegId)
    → Adds (emit_rex_for_extension width destination source)
emit_rex_for_extension-Adds width destination source =
    via (emit_rex_for_extension_lem width destination source)
      (if-Adds _ _ _ (emit-Adds _) skip-Adds)

-- Four bytes in a row.
abbrev four_bytes-Adds : (a b c d : ℕ) → Adds (emit a >> emit b >> emit c >> emit d)
four_bytes-Adds a b c d =
    seq-Adds _ _ (emit-Adds a)
      (seq-Adds _ _ (emit-Adds b) (seq-Adds _ _ (emit-Adds c) (emit-Adds d)))

pub emit32_lem :
    (v : ℤ)
    → emit32 v ≡ (
        emit (to_u8 v)
        >> emit (to_u8 (shr_ℤ v 8))
        >> emit (to_u8 (shr_ℤ v 16))
        >> emit (to_u8 (shr_ℤ v 24)))
unfolding emit32
emit32_lem v = refl

abbrev pub emit32-Adds : (v : ℤ) → Adds (emit32 v)
emit32-Adds v = via (emit32_lem v) (four_bytes-Adds _ _ _ _)

pub emit64_lem :
    (v : ℤ)
    → emit64 v ≡ (
        emit (to_u8 (shr_ℤ v 0))
        >> (emit (to_u8 (shr_ℤ v 8))
            >> (emit (to_u8 (shr_ℤ v 16))
                >> (emit (to_u8 (shr_ℤ v 24))
                    >> (emit (to_u8 (shr_ℤ v 32))
                        >> (emit (to_u8 (shr_ℤ v 40))
                            >> (emit (to_u8 (shr_ℤ v 48))
                                >> (emit (to_u8 (shr_ℤ v 56)) >> skip))))))))
unfolding emit64 emit64_loop
emit64_lem v = refl

abbrev pub emit64-Adds : (v : ℤ) → Adds (emit64 v)
emit64-Adds v = via (emit64_lem v) (
    seq-Adds _ _ (emit-Adds _) (
      seq-Adds _ _ (emit-Adds _) (
        seq-Adds _ _ (emit-Adds _) (
          seq-Adds _ _ (emit-Adds _) (
            seq-Adds _ _ (emit-Adds _) (
              seq-Adds _ _ (emit-Adds _)
                (seq-Adds _ _ (emit-Adds _) (seq-Adds _ _ (emit-Adds _) skip-Adds))))))))

-- The tests of `emit_mem_address`: no displacement, and one of eight bits.
abbrev pub no_disp : RegId → ℤ → Bool
no_disp base disp = eq_ℤ disp (pos 0) && not (rf base == 5)

abbrev pub short_disp : ℤ → Bool
short_disp disp = leb_ℤ (negsuc 127) disp && leb_ℤ disp (pos 127)

abbrev modrm_part-Adds : (mode modrm_reg : ℕ) (base : RegId) → Adds (modrm_part mode modrm_reg base)
modrm_part-Adds mode modrm_reg base =
    emit-Adds (modrm_byte mode modrm_reg (if rf base == 4 then 4 else rf base))

module _ (modrm_reg : ℕ) (base : RegId) (disp : ℤ) where
  pub emit_mem_address_lem : emit_mem_address modrm_reg base disp ≡ (
      if no_disp base disp
      then modrm_part 0 modrm_reg base >> sib_part base
      else if short_disp disp
      then modrm_part 1 modrm_reg base >> sib_part base >> emit (to_u8 disp)
      else modrm_part 2 modrm_reg base >> sib_part base >> emit32 disp)
  unfolding emit_mem_address
  emit_mem_address_lem = refl

  abbrev pub emit_mem_address-Adds : Adds (emit_mem_address modrm_reg base disp)
  emit_mem_address-Adds =
      let sib : Adds (sib_part base) = if-Adds (rf base == 4) _ _ (emit-Adds _) skip-Adds in
      via emit_mem_address_lem (
        if-Adds (no_disp base disp) _ _ (seq-Adds _ _ (modrm_part-Adds 0 modrm_reg base) sib) (
          if-Adds (short_disp disp) _ _
            (seq-Adds _ _ (modrm_part-Adds 1 modrm_reg base)
              (seq-Adds _ _ sib (emit-Adds (to_u8 disp))))
            (seq-Adds _ _ (modrm_part-Adds 2 modrm_reg base)
              (seq-Adds _ _ sib (emit32-Adds disp)))))

pub emit_rr_lem :
    (opcode : ℕ) (dst src : RegId) (width : ℕ)
    → emit_rr opcode dst src width ≡ (
        emit_width_prefix width
        >> (emit_rex_for_width width src dst
            >> (emit opcode >> emit (modrm_byte 3 (rf src) (rf dst)))))
unfolding emit_rr
emit_rr_lem opcode dst src width = refl

abbrev pub emit_rr-Adds :
    (opcode : ℕ) (dst src : RegId) (width : ℕ) → Adds (emit_rr opcode dst src width)
emit_rr-Adds opcode dst src width = via (emit_rr_lem opcode dst src width) (
    seq-Adds _ _ (emit_width_prefix-Adds width) (
      seq-Adds _ _ (emit_rex_for_width-Adds width src dst)
        (seq-Adds _ _ (emit-Adds _) (emit-Adds _))))

pub emit_mem_lem :
    (opcode : ℕ) (reg base : RegId) (disp : ℤ) (width : ℕ)
    → emit_mem opcode reg base disp width ≡ (
        emit_width_prefix width
        >> (emit_rex_for_width width reg base
            >> (emit opcode >> emit_mem_address (rf reg) base disp)))
unfolding emit_mem
emit_mem_lem opcode reg base disp width = refl

abbrev pub emit_mem-Adds :
    (opcode : ℕ) (reg base : RegId) (disp : ℤ) (width : ℕ)
    → Adds (emit_mem opcode reg base disp width)
emit_mem-Adds opcode reg base disp width = via (emit_mem_lem opcode reg base disp width) (
    seq-Adds _ _ (emit_width_prefix-Adds width) (
      seq-Adds _ _ (emit_rex_for_width-Adds width reg base)
        (seq-Adds _ _ (emit-Adds _) (emit_mem_address-Adds _ base disp))))

pub emit_rip_relative_mem_lem :
    (opcode : ℕ) (reg : RegId) (width : ℕ)
    → emit_rip_relative_mem opcode reg width ≡ (
        emit_width_prefix width
        >> (emit_rex_for_width width reg reg_invalid
            >> (emit opcode >> (emit (modrm_byte 0 (rf reg) 5) >> emit32 (pos 0)))))
unfolding emit_rip_relative_mem
emit_rip_relative_mem_lem opcode reg width = refl

abbrev pub emit_rip_relative_mem-Adds :
    (opcode : ℕ) (reg : RegId) (width : ℕ) → Adds (emit_rip_relative_mem opcode reg width)
emit_rip_relative_mem-Adds opcode reg width = via (emit_rip_relative_mem_lem opcode reg width) (
    seq-Adds _ _ (emit_width_prefix-Adds width) (
      seq-Adds _ _ (emit_rex_for_width-Adds width reg reg_invalid)
        (seq-Adds _ _ (emit-Adds _) (seq-Adds _ _ (emit-Adds _) (emit32-Adds _)))))

pub ruleset emitting = (
  emit-Adds, skip-Adds, seq-Adds, if-Adds, emit_rex-Adds, emit_rex_for_width-Adds,
  emit_width_prefix-Adds, emit_rex_for_extension-Adds, emit32-Adds, emit64-Adds,
  emit_mem_address-Adds, emit_rr-Adds, emit_mem-Adds, emit_rip_relative_mem-Adds,
)
