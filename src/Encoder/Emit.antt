-- ===== src/Encoder/Emit.antt =====
-- The emit helpers and ModRM encoders of encoder/table.c. A helper that takes a `Buf *` is an
-- action on the buffer; a sequence of calls is a `do` block.
pub mod Adds
pub mod Helpers
use nazm.Prelude.{
  ℕ, ◌+◌, ◌*◌, Bool, true, false, ◌&&◌, ◌||◌, not, List, [], ◌∷◌, ◌++◌, Option, none, ltb, ◌==◌,
  if◌then◌else◌, length, ℤ, pos, negsuc, eq_ℤ, leb_ℤ, ltb_ℤ, to_u8, to_unsigned, shr_ℤ, zero, suc,
}
use nazm.Encoder.Registers.{
  RegId, reg_invalid, reg_width_bits, reg_needs_rex, reg_requires_rex_byte, reg_field,
}
use nazm.Encoder.Bytes.{rex_byte, rex_required, modrm_byte, sib_byte, immediate_fits_i32}
use nazm.Encoder.Operands.{Operand}

-- `MAX_INSTRUCTION_BYTES`.
abbrev pub max_instruction_bytes : ℕ
max_instruction_bytes = 15

-- The bytes written so far; `len` is their number.
abbrev pub Buf : Type 0
Buf = List ℕ

abbrev pub Emit : Type 0
Emit = Buf → Buf

infixr 5 ◌>>◌
unfoldable pub ◌>>◌ : Emit → Emit → Emit
◌>>◌ f g b = g (f b)

unfoldable pub skip : Emit
skip b = b

-- A byte past the end of the buffer is dropped.
unfoldable pub emit : ℕ → Emit
emit byte b = if ltb (length b) max_instruction_bytes then b ++ (byte ∷ []) else b

-- `EncodedInstruction`: `bytes` holds the first `len` entries of the array.
pub record EncodedInstruction : Type 0 where
  pub bytes : List ℕ
  pub len : ℕ
  pub error : Bool
  pub needs_reloc : Bool
  pub reloc_sym : Option (List ℕ)

abbrev pub make_error : EncodedInstruction
make_error = record { bytes = []; len = 0; error = true; needs_reloc = false; reloc_sym = none }

abbrev pub from_buf : Buf → EncodedInstruction
from_buf b = record {
  bytes = b;
  len = length b;
  error = false;
  needs_reloc = false;
  reloc_sym = none;
}

-- `Buf b = {0}`, the calls of `f`, and `return from_buf(&b)`.
unfoldable pub encoded : Emit → EncodedInstruction
encoded f = from_buf (f [])

unfoldable pub emit_rex : Bool → Bool → Bool → Bool → Emit
emit_rex w r x b = if rex_required w r x b then emit (rex_byte w r x b) else skip

abbrev pub rex_r : RegId → Bool
rex_r r = reg_needs_rex r

abbrev pub rex_b : RegId → Bool
rex_b r = reg_needs_rex r

abbrev pub rf : RegId → ℕ
rf r = reg_field r

-- `r != REG_INVALID && reg_needs_rex(r)`: the extension bit that `r` sets in REX.
unfoldable pub extension_bit : RegId → Bool
extension_bit r = not (r == reg_invalid) && rex_r r

-- The `force` of `emit_rex_for_width`.
unfoldable pub rex_forced : ℕ → RegId → RegId → Bool
rex_forced width reg rm =
    width == 8
    && (not (reg == reg_invalid) && reg_requires_rex_byte reg
        || not (rm == reg_invalid) && reg_requires_rex_byte rm)

unfoldable pub emit_rex_for_width : ℕ → RegId → RegId → Emit
emit_rex_for_width width reg rm =
    let r = extension_bit reg in
    let b = extension_bit rm in
    if rex_forced width reg rm || rex_required (width == 64) r false b
    then emit (rex_byte (width == 64) r false b)
    else skip

unfoldable pub emit_width_prefix : ℕ → Emit
emit_width_prefix width = if width == 16 then emit 0x66 else skip

unfoldable pub valid_integer_width : ℕ → Bool
valid_integer_width width = width == 8 || width == 16 || width == 32 || width == 64

unfoldable pub same_register_width : RegId → RegId → Bool
unfolding valid_integer_width
same_register_width left right =
    let width = reg_width_bits left in valid_integer_width width && reg_width_bits right == width

unfoldable pub emit_rex_for_extension : ℕ → RegId → RegId → Emit
emit_rex_for_extension destination_width destination source =
    let force = reg_width_bits source == 8 && reg_requires_rex_byte source in
    let r = rex_r destination in
    let b = rex_b source in
    let w = destination_width == 64 in
    if force || rex_required w r false b then emit (rex_byte w r false b) else skip

unfoldable pub emit32 : ℤ → Emit
emit32 v = do
  emit (to_u8 v)
  emit (to_u8 (shr_ℤ v 8))
  emit (to_u8 (shr_ℤ v 16))
  emit (to_u8 (shr_ℤ v 24))

-- The loop of `emit64`, from round `i` on, with `rounds` left.
unfoldable pub emit64_loop : ℕ → ℕ → ℤ → Emit
emit64_loop zero i v = skip
emit64_loop (suc rounds) i v = emit (to_u8 (shr_ℤ v (i * 8))) >> emit64_loop rounds (i + 1) v

unfoldable pub emit64 : ℤ → Emit
unfolding emit64_loop
emit64 v = emit64_loop 8 0 v

unfoldable pub operand_disp : Operand → ℤ
operand_disp (Operand.mem_disp _ disp) = disp
operand_disp _ = pos 0

unfoldable pub emit_mem_address : ℕ → RegId → ℤ → Emit
emit_mem_address modrm_reg base disp =
    let need_sib = rf base == 4 in
    let rm_field = if need_sib then 4 else rf base in
    let sib = if need_sib then emit (sib_byte 0 4 (rf base)) else skip in
    if eq_ℤ disp (pos 0) && not (rf base == 5)
    then emit (modrm_byte 0 modrm_reg rm_field) >> sib
    else if leb_ℤ (negsuc 127) disp && leb_ℤ disp (pos 127)
    then emit (modrm_byte 1 modrm_reg rm_field) >> sib >> emit (to_u8 disp)
    else emit (modrm_byte 2 modrm_reg rm_field) >> sib >> emit32 disp

-- Both registers in ModRM: `reg` is the source and `rm` the destination.
unfoldable pub emit_rr : ℕ → RegId → RegId → ℕ → Emit
emit_rr opcode dst src width = do
  emit_width_prefix width
  emit_rex_for_width width src dst
  emit opcode
  emit (modrm_byte 3 (rf src) (rf dst))

unfoldable pub emit_mem : ℕ → RegId → RegId → ℤ → ℕ → Emit
emit_mem opcode reg base disp width = do
  emit_width_prefix width
  emit_rex_for_width width reg base
  emit opcode
  emit_mem_address (rf reg) base disp

unfoldable pub emit_rip_relative_mem : ℕ → RegId → ℕ → Emit
emit_rip_relative_mem opcode reg width = do
  emit_width_prefix width
  emit_rex_for_width width reg reg_invalid
  emit opcode
  emit (modrm_byte 0 (rf reg) 5)
  emit32 (pos 0)

-- `encoded.error ? MAX_INSTRUCTION_BYTES : encoded.len`
abbrev pub size_of : EncodedInstruction → ℕ
size_of e = if e.error then max_instruction_bytes else e.len

-- The test `v < INT32_MIN || (v >= 0 && (uint64_t)v > UINT32_MAX)`.
abbrev pub exceeds_32 : ℤ → Bool
exceeds_32 v = ltb_ℤ v (negsuc 0x7fff_ffff) || leb_ℤ (pos 0) v && ltb 0xffff_ffff (to_unsigned 64 v)

-- The test `v < INT16_MIN || v > UINT16_MAX`.
abbrev pub exceeds_16 : ℤ → Bool
exceeds_16 v = ltb_ℤ v (negsuc 0x7fff) || ltb_ℤ (pos 0xffff) v

-- The test `v < INT8_MIN || v > UINT8_MAX`.
abbrev pub exceeds_8 : ℤ → Bool
exceeds_8 v = ltb_ℤ v (negsuc 0x7f) || ltb_ℤ (pos 0xff) v

-- The checks on an immediate at the widths 64, 32 and 16 that IMUL makes; ADD and TEST go on to 8.
abbrev pub imul_immediate_rejected : ℕ → ℤ → Bool
imul_immediate_rejected width v =
    width == 64 && not (immediate_fits_i32 v)
    || width == 32 && exceeds_32 v
    || width == 16 && exceeds_16 v

abbrev pub immediate_rejected : ℕ → ℤ → Bool
immediate_rejected width v = imul_immediate_rejected width v || width == 8 && exceeds_8 v
