-- ===== src/Encoder/Sizes/Sse2.antt =====
-- Bounds on the length of the SSE2 instructions.
use nazm.Prelude.{ℕ, ◌≡◌, refl, Bool, true, false, ◌&&◌, ◌==◌, leb, List, [], ◌∷◌, if◌then◌else◌, ℤ}
use nazm.Encoder.Registers.{RegId, reg_is_gpr, reg_is_xmm, reg_width_bits}
use nazm.Encoder.Bytes.{rex_byte, rex_required}
use nazm.Encoder.Opcodes.{Opcode, addsd, subsd, mulsd, divsd, ucomisd, xorpd, cvtsi2sd, cvttsd2si}
use nazm.Encoder.Operands.{Operand, reg, mem_reg, mem_disp}
use nazm.Encoder.Emit.{Emit, skip, emit, extension_bit, emit32, emit_mem_address}
use nazm.Encoder.Emit.Adds.{Adds, emit-Adds, skip-Adds, if-Adds, via}
use nazm.Encoder.Emit.Helpers.{emitting, emit32-Adds, emit_mem_address-Adds}
use nazm.Encoder.Sse2.{
  sse_emit, sse_emit32, sse_result, emit_rex_if_needed, emit_memory_address, sse_rr, sse_rm,
  sse2_move_reg, sse2_move_load, sse2_move_store, sse2_encode_move, encode_xmm_binary,
  encode_cvtsi2sd, encode_cvttsd2si, sse2_encode,
}
use nazm.Encoder.Bounds.{IsSized, error-IsSized, added_bounds, if-IsSized, checked-IsSized}

-- The two files have the same emit helpers.
pub sse_emit_lem : (x : ℕ) → sse_emit x ≡ emit x
unfolding sse_emit emit
sse_emit_lem x = refl

pub sse_emit32_lem : (v : ℤ) → sse_emit32 v ≡ emit32 v
unfolding sse_emit32 emit32 sse_emit emit
sse_emit32_lem v = refl

pub emit_memory_address_lem :
    (modrm_reg : ℕ) (base : RegId) (displacement : ℤ)
    → emit_memory_address modrm_reg base displacement ≡ emit_mem_address modrm_reg base displacement
unfolding emit_memory_address emit_mem_address sse_emit emit sse_emit32 emit32
emit_memory_address_lem modrm_reg base displacement = refl

pub emit_rex_if_needed_lem :
    (w : Bool) (r rm : RegId)
    → emit_rex_if_needed w r rm ≡ (
        if rex_required w (extension_bit r) false (extension_bit rm)
        then emit (rex_byte w (extension_bit r) false (extension_bit rm))
        else skip)
unfolding emit_rex_if_needed sse_emit emit extension_bit
emit_rex_if_needed_lem w r rm = refl

abbrev pub sse_emit-Adds : (x : ℕ) → Adds (sse_emit x)
sse_emit-Adds x = via (sse_emit_lem x) (emit-Adds x)

abbrev pub emit_memory_address-Adds :
    (modrm_reg : ℕ) (base : RegId) (displacement : ℤ)
    → Adds (emit_memory_address modrm_reg base displacement)
emit_memory_address-Adds modrm_reg base displacement =
    via (emit_memory_address_lem modrm_reg base displacement)
      (emit_mem_address-Adds modrm_reg base displacement)

abbrev pub emit_rex_if_needed-Adds : (w : Bool) (r rm : RegId) → Adds (emit_rex_if_needed w r rm)
emit_rex_if_needed-Adds w r rm = via (emit_rex_if_needed_lem w r rm) (
    if-Adds (rex_required w (extension_bit r) false (extension_bit rm)) _ _ (emit-Adds _) skip-Adds)

pub ruleset sse_emitting =
    (emitting, sse_emit-Adds, emit_memory_address-Adds, emit_rex_if_needed-Adds)

sse_result-IsSized :
    (f : Emit) (p : Adds f) → (leb 1 p.least && leb p.most 10) ≡ true → IsSized (sse_result f)
unfolding sse_result
sse_result-IsSized f p fits = record {
  at_least = λ _. (added_bounds f p fits).0;
  at_most = λ _. (added_bounds f p fits).1;
  counted = refl;
}

sse_rr-IsSized :
    (prefix : ℕ) (w : Bool) (opcode : ℕ) (r rm : RegId) → IsSized (sse_rr prefix w opcode r rm)
unfolding sse_rr
sse_rr-IsSized prefix w opcode r rm = sse_result-IsSized _ (search sse_emitting depth 12) refl

sse_rm-IsSized :
    (prefix opcode : ℕ) (r base : RegId) (disp : ℤ) → IsSized (sse_rm prefix opcode r base disp)
unfolding sse_rm
sse_rm-IsSized prefix opcode r base disp = sse_result-IsSized _ (search sse_emitting depth 12) refl

move_reg-IsSized : (destination source : RegId) → IsSized (sse2_move_reg destination source)
unfolding sse2_move_reg
move_reg-IsSized destination source =
    if-IsSized (reg_is_xmm destination && reg_is_xmm source) (sse_rr-IsSized _ _ _ _ _) (
      if-IsSized (reg_is_xmm destination && (reg_is_gpr source && reg_width_bits source == 64))
        (sse_rr-IsSized _ _ _ _ _) (if-IsSized _ (sse_rr-IsSized _ _ _ _ _) error-IsSized))

move_load-IsSized :
    (destination base : RegId) (disp : ℤ) → IsSized (sse2_move_load destination base disp)
unfolding sse2_move_load
move_load-IsSized destination base disp = if-IsSized _ (sse_rm-IsSized _ _ _ _ _) error-IsSized

move_store-IsSized :
    (base : RegId) (disp : ℤ) (source : RegId) → IsSized (sse2_move_store base disp source)
unfolding sse2_move_store
move_store-IsSized base disp source = if-IsSized _ (sse_rm-IsSized _ _ _ _ _) error-IsSized

pub sse2_encode_move-IsSized : (ops : List Operand) → IsSized (sse2_encode_move ops)
unfolding sse2_encode_move
sse2_encode_move-IsSized (reg destination ∷ reg source ∷ []) = move_reg-IsSized destination source
sse2_encode_move-IsSized (reg destination ∷ mem_reg base ∷ []) =
    move_load-IsSized destination base _
sse2_encode_move-IsSized (reg destination ∷ mem_disp base disp ∷ []) =
    move_load-IsSized destination base _
sse2_encode_move-IsSized (mem_reg base ∷ reg source ∷ []) = move_store-IsSized base _ source
sse2_encode_move-IsSized (mem_disp base disp ∷ reg source ∷ []) = move_store-IsSized base _ source
sse2_encode_move-IsSized _ = error-IsSized

encode_xmm_binary-IsSized :
    (ops : List Operand) (prefix opcode : ℕ) → IsSized (encode_xmm_binary ops prefix opcode)
unfolding encode_xmm_binary
encode_xmm_binary-IsSized (reg left ∷ reg right ∷ []) prefix opcode =
    checked-IsSized _ (sse_rr-IsSized _ _ _ _ _)
encode_xmm_binary-IsSized _ prefix opcode = error-IsSized

encode_cvtsi2sd-IsSized : (ops : List Operand) → IsSized (encode_cvtsi2sd ops)
unfolding encode_cvtsi2sd
encode_cvtsi2sd-IsSized (reg destination ∷ reg source ∷ []) =
    checked-IsSized _ (checked-IsSized _ (sse_rr-IsSized _ _ _ _ _))
encode_cvtsi2sd-IsSized _ = error-IsSized

encode_cvttsd2si-IsSized : (ops : List Operand) → IsSized (encode_cvttsd2si ops)
unfolding encode_cvttsd2si
encode_cvttsd2si-IsSized (reg destination ∷ reg source ∷ []) =
    checked-IsSized _ (checked-IsSized _ (sse_rr-IsSized _ _ _ _ _))
encode_cvttsd2si-IsSized _ = error-IsSized

pub sse2_encode-IsSized : (op : Opcode) (ops : List Operand) → IsSized (sse2_encode op ops)
unfolding sse2_encode
sse2_encode-IsSized addsd ops = encode_xmm_binary-IsSized ops _ _
sse2_encode-IsSized subsd ops = encode_xmm_binary-IsSized ops _ _
sse2_encode-IsSized mulsd ops = encode_xmm_binary-IsSized ops _ _
sse2_encode-IsSized divsd ops = encode_xmm_binary-IsSized ops _ _
sse2_encode-IsSized ucomisd ops = encode_xmm_binary-IsSized ops _ _
sse2_encode-IsSized xorpd ops = encode_xmm_binary-IsSized ops _ _
sse2_encode-IsSized cvtsi2sd ops = encode_cvtsi2sd-IsSized ops
sse2_encode-IsSized cvttsd2si ops = encode_cvttsd2si-IsSized ops
sse2_encode-IsSized _ ops = error-IsSized
