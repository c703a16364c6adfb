-- ===== src/Encoder/Sse2.antt =====
-- encoder/sse2.c: the scalar SSE2 encoders, over their own buffer.
use nazm.Prelude.{
  ℕ, Bool, true, false, ◌&&◌, ◌||◌, not, List, [], ◌∷◌, ◌++◌, none, ltb, ◌==◌, if◌then◌else◌,
  length, ℤ, pos, negsuc, eq_ℤ, leb_ℤ, to_u8, shr_ℤ,
}
use nazm.Encoder.Registers.{
  RegId, reg_invalid, reg_width_bits, reg_is_gpr, reg_is_xmm, reg_needs_rex, reg_field,
}
use nazm.Encoder.Bytes.{rex_byte, rex_required, modrm_byte, sib_byte}
use nazm.Encoder.Opcodes.{Opcode, addsd, subsd, mulsd, divsd, ucomisd, xorpd, cvtsi2sd, cvttsd2si}
use nazm.Encoder.Operands.{Operand, reg, mem_reg, mem_disp}
use nazm.Encoder.Emit.{Emit, ◌>>◌, skip, EncodedInstruction, max_instruction_bytes}

unfoldable pub sse_emit : ℕ → Emit
sse_emit byte b = if ltb (length b) max_instruction_bytes then b ++ (byte ∷ []) else b

unfoldable pub sse_emit32 : ℤ → Emit
sse_emit32 v = do
  sse_emit (to_u8 v)
  sse_emit (to_u8 (shr_ℤ v 8))
  sse_emit (to_u8 (shr_ℤ v 16))
  sse_emit (to_u8 (shr_ℤ v 24))

abbrev pub sse_error : EncodedInstruction
sse_error = record { bytes = []; len = 0; error = true; needs_reloc = false; reloc_sym = none }

-- `SseBuf buffer = {0}`, the calls of `f`, and `return sse_result(&buffer)`.
unfoldable pub sse_result : Emit → EncodedInstruction
sse_result f = record {
  bytes = f [];
  len = length (f []);
  error = false;
  needs_reloc = false;
  reloc_sym = none;
}

operand_displacement : Operand → ℤ
operand_displacement (mem_disp _ disp) = disp
operand_displacement _ = pos 0

abbrev is_valid : RegId → Bool
is_valid r = not (r == reg_invalid)

unfoldable pub emit_rex_if_needed : Bool → RegId → RegId → Emit
emit_rex_if_needed width64 reg_operand rm_operand =
    let rex_r = is_valid reg_operand && reg_needs_rex reg_operand in
    let rex_b = is_valid rm_operand && reg_needs_rex rm_operand in
    if rex_required width64 rex_r false rex_b
    then sse_emit (rex_byte width64 rex_r false rex_b)
    else skip

unfoldable pub emit_memory_address : ℕ → RegId → ℤ → Emit
emit_memory_address modrm_reg base displacement =
    let base_field = reg_field base in
    let needs_sib = base_field == 4 in
    let rm_field = if needs_sib then 4 else base_field in
    let sib = if needs_sib then sse_emit (sib_byte 0 4 base_field) else skip in
    if eq_ℤ displacement (pos 0) && not (base_field == 5)
    then sse_emit (modrm_byte 0 modrm_reg rm_field) >> sib
    else if leb_ℤ (negsuc 127) displacement && leb_ℤ displacement (pos 127)
    then sse_emit (modrm_byte 1 modrm_reg rm_field) >> sib >> sse_emit (to_u8 displacement)
    else sse_emit (modrm_byte 2 modrm_reg rm_field) >> sib >> sse_emit32 displacement

-- `valid_memory_base` of a memory operand with this base.
unfoldable pub valid_memory_base : RegId → Bool
valid_memory_base base = reg_is_gpr base && reg_width_bits base == 64

unfoldable pub sse2_operands_use_xmm : List Operand → Bool
sse2_operands_use_xmm [] = false
sse2_operands_use_xmm (reg r ∷ ops) = reg_is_xmm r || sse2_operands_use_xmm ops
sse2_operands_use_xmm (_ ∷ ops) = sse2_operands_use_xmm ops

-- A prefix, REX, 0F and an opcode, then ModRM with two registers.
unfoldable pub sse_rr : ℕ → Bool → ℕ → RegId → RegId → EncodedInstruction
sse_rr prefix width64 opcode r rm = sse_result do
  sse_emit prefix
  emit_rex_if_needed width64 r rm
  sse_emit 0x0F
  sse_emit opcode
  sse_emit (modrm_byte 3 (reg_field r) (reg_field rm))

-- The same with a memory operand.
unfoldable pub sse_rm : ℕ → ℕ → RegId → RegId → ℤ → EncodedInstruction
sse_rm prefix opcode r base displacement = sse_result do
  sse_emit prefix
  emit_rex_if_needed false r base
  sse_emit 0x0F
  sse_emit opcode
  emit_memory_address (reg_field r) base displacement

unfoldable pub sse2_move_reg : RegId → RegId → EncodedInstruction
sse2_move_reg destination source =
    if reg_is_xmm destination && reg_is_xmm source
    then sse_rr 0xF3 false 0x7E destination source
    else if reg_is_xmm destination && (reg_is_gpr source && reg_width_bits source == 64)
    then sse_rr 0x66 true 0x6E destination source
    else if (reg_is_gpr destination && reg_width_bits destination == 64) && reg_is_xmm source
    then sse_rr 0x66 true 0x7E source destination
    else sse_error

unfoldable pub sse2_move_load : RegId → RegId → ℤ → EncodedInstruction
sse2_move_load destination base displacement =
    if reg_is_xmm destination && valid_memory_base base
    then sse_rm 0xF3 0x7E destination base displacement
    else sse_error

unfoldable pub sse2_move_store : RegId → ℤ → RegId → EncodedInstruction
sse2_move_store base displacement source =
    if valid_memory_base base && reg_is_xmm source
    then sse_rm 0x66 0xD6 source base displacement
    else sse_error

unfoldable pub sse2_encode_move : List Operand → EncodedInstruction
unfolding operand_displacement
sse2_encode_move (reg destination ∷ reg source ∷ []) = sse2_move_reg destination source
sse2_encode_move (reg destination ∷ mem_reg base ∷ []) =
    sse2_move_load destination base (operand_displacement (mem_reg base))
sse2_encode_move (reg destination ∷ mem_disp base disp ∷ []) =
    sse2_move_load destination base (operand_displacement (mem_disp base disp))
sse2_encode_move (mem_reg base ∷ reg source ∷ []) =
    sse2_move_store base (operand_displacement (mem_reg base)) source
sse2_encode_move (mem_disp base disp ∷ reg source ∷ []) =
    sse2_move_store base (operand_displacement (mem_disp base disp)) source
sse2_encode_move _ = sse_error

unfoldable pub encode_xmm_binary : List Operand → ℕ → ℕ → EncodedInstruction
encode_xmm_binary (reg left ∷ reg right ∷ []) prefix opcode =
    if not (reg_is_xmm left) || not (reg_is_xmm right)
    then sse_error
    else sse_rr prefix false opcode left right
encode_xmm_binary _ _ _ = sse_error

unfoldable pub encode_cvtsi2sd : List Operand → EncodedInstruction
encode_cvtsi2sd (reg destination ∷ reg source ∷ []) =
    let source_width = reg_width_bits source in
    if not (reg_is_xmm destination) || not (reg_is_gpr source)
    then sse_error
    else if not (source_width == 32) && not (source_width == 64)
    then sse_error
    else sse_rr 0xF2 (source_width == 64) 0x2A destination source
encode_cvtsi2sd _ = sse_error

unfoldable pub encode_cvttsd2si : List Operand → EncodedInstruction
encode_cvttsd2si (reg destination ∷ reg source ∷ []) =
    let destination_width = reg_width_bits destination in
    if not (reg_is_gpr destination) || not (reg_is_xmm source)
    then sse_error
    else if not (destination_width == 32) && not (destination_width == 64)
    then sse_error
    else sse_rr 0xF2 (destination_width == 64) 0x2C destination source
encode_cvttsd2si _ = sse_error

unfoldable pub sse2_encode : Opcode → List Operand → EncodedInstruction
sse2_encode addsd ops = encode_xmm_binary ops 0xF2 0x58
sse2_encode subsd ops = encode_xmm_binary ops 0xF2 0x5C
sse2_encode mulsd ops = encode_xmm_binary ops 0xF2 0x59
sse2_encode divsd ops = encode_xmm_binary ops 0xF2 0x5E
sse2_encode ucomisd ops = encode_xmm_binary ops 0x66 0x2E
sse2_encode xorpd ops = encode_xmm_binary ops 0x66 0x57
sse2_encode cvtsi2sd ops = encode_cvtsi2sd ops
sse2_encode cvttsd2si ops = encode_cvttsd2si ops
sse2_encode _ ops = sse_error
