-- ===== src/Encoder/Bytes.antt =====
-- encoder/rex.c, the byte builders of encoder/modrm.c, and encoder/immediate.c.
pub mod Immediates
use nazm.Prelude.{
  ℕ, ◌*◌, ◌%◌, ◌^◌, Bool, ◌&&◌, ◌||◌, List, [], ◌∷◌, if◌then◌else◌, bit_and, bit_or, ℤ, pos, negsuc,
  leb_ℤ, to_u8, shr_ℤ,
}

-- REX is 0100WRXB.
unfoldable pub rex_byte : Bool → Bool → Bool → Bool → ℕ
rex_byte w r x b =
    bit_or
      (bit_or (bit_or (bit_or 0x40 (if w then 0x08 else 0)) (if r then 0x04 else 0))
        (if x then 0x02 else 0))
      (if b then 0x01 else 0)
    % 256

unfoldable pub rex_required : Bool → Bool → Bool → Bool → Bool
rex_required w r x b = w || r || x || b

-- The arguments are nonnegative at every call.
unfoldable pub modrm_byte : ℕ → ℕ → ℕ → ℕ
modrm_byte mode reg rm =
    bit_or (bit_or (bit_and mode 3 * 2 ^ 6) (bit_and reg 7 * 2 ^ 3)) (bit_and rm 7) % 256

unfoldable pub sib_byte : ℕ → ℕ → ℕ → ℕ
sib_byte scale index base =
    bit_or (bit_or (bit_and scale 3 * 2 ^ 6) (bit_and index 7 * 2 ^ 3)) (bit_and base 7) % 256

unfoldable pub immediate_fits_i8 : ℤ → Bool
immediate_fits_i8 v = leb_ℤ (negsuc 127) v && leb_ℤ v (pos 127)

unfoldable pub immediate_fits_i32 : ℤ → Bool
immediate_fits_i32 v = leb_ℤ (negsuc 0x7fff_ffff) v && leb_ℤ v (pos 0x7fff_ffff)

unfoldable pub immediate_fits_u8 : ℤ → Bool
immediate_fits_u8 v = leb_ℤ (pos 0) v && leb_ℤ v (pos 255)

-- The bytes that the three routines write at `buf`; each returns their number.
unfoldable pub emit_imm8 : ℤ → List ℕ
emit_imm8 v = to_u8 v ∷ []

unfoldable pub emit_imm32 : ℤ → List ℕ
emit_imm32 v = to_u8 v ∷ to_u8 (shr_ℤ v 8) ∷ to_u8 (shr_ℤ v 16) ∷ to_u8 (shr_ℤ v 24) ∷ []

unfoldable pub emit_imm64 : ℤ → List ℕ
emit_imm64 v =
    to_u8 v
    ∷ to_u8 (shr_ℤ v 8)
    ∷ to_u8 (shr_ℤ v 16)
    ∷ to_u8 (shr_ℤ v 24)
    ∷ to_u8 (shr_ℤ v 32)
    ∷ to_u8 (shr_ℤ v 40)
    ∷ to_u8 (shr_ℤ v 48)
    ∷ to_u8 (shr_ℤ v 56)
    ∷ []
