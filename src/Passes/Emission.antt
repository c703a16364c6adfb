-- ===== src/Passes/Emission.antt =====
-- A valid data directive of src/passes: the size that the first pass counts, and the bytes that the
-- second pass writes.
use nazm.Prelude.{
  ℕ, zero, suc, ◌+◌, ◌*◌, ◌^◌, ◌≤◌, ◌<◌, ◌≡◌, refl, sym, ap, ◌∙◌, Bool, true, List, [], ◌∷◌, ◌++◌,
  append_assoc, append-nil, none, if◌then◌else◌, length, length-append, pos, ltb_ℤ, arith,
}
use nazm.Encoder.Operands.{Operand, imm, string}
use nazm.Passes.Instruction.{
  DirectiveKind, int8, int16, int32, int64, alignment, zero_space, nul_string, string_bytes,
}
use nazm.Passes.Data.{
  space_size, padding, data_directive_size, data_directive_size_at, validate_data_directive,
}
use nazm.Passes.Buffers.{
  buffer_append, repeated, buffer_fill, emit_strings, value_bytes, operand_value, emit_integers,
  emit_zeros, emit_data_directive,
}
use nazm.Passes.Sizes.{
  length-repeated, length-value_bytes, strings_of, values_of, boundary_of, space_of, data_bytes,
  length-strings_of, length-values_of, string_total_lem, values_size_lem, padding-lt,
  validate_alignment-boundary, padding_size_lem, emit_padding_lem, space_size_lem,
}

module _ (ops : List Operand) (few : length ops ≤ 3) (short : string_bytes ops < 2_000_000_000)
    (offset : ℕ) where
  -- The size of a valid directive is the number of its bytes, and it is below 2 ^ 31.
  pub data_directive_size_lem :
      (kind : DirectiveKind)
      → validate_data_directive kind ops ≡ none
      → (data_directive_size_at kind ops offset ≡ pos (length (data_bytes kind ops offset)))
        × (length (data_bytes kind ops offset) < 2 ^ 31)
  unfolding data_directive_size_at data_directive_size data_bytes validate_data_directive
  data_directive_size_lem nul_string h =
      let total = string_total_lem 0 ops (omega arith) in
      let counted = length-strings_of ops in (rw total (ground arith), omega arith)
  data_directive_size_lem int8 h = (values_size_lem 1 ops, omega (arith, length-values_of 1 ops))
  data_directive_size_lem int16 h = (values_size_lem 2 ops, omega (arith, length-values_of 2 ops))
  data_directive_size_lem int32 h = (values_size_lem 4 ops, omega (arith, length-values_of 4 ops))
  data_directive_size_lem int64 h = (values_size_lem 8 ops, omega (arith, length-values_of 8 ops))
  data_directive_size_lem alignment h =
      let (positive, small) = validate_alignment-boundary ops h in
      let counted = length-repeated 0 (padding (boundary_of ops) offset) in
      let below = padding-lt (boundary_of ops) offset positive in
      (padding_size_lem ops offset h ∙ ap pos (sym counted), omega arith)
  data_directive_size_lem zero_space h =
      let (same, small) = space_size_lem ops h in
      let counted = length-repeated 0 (space_of ops) in (same ∙ ap pos (sym counted), omega arith)
  data_directive_size_lem DirectiveKind.none h = (refl, omega arith)
  data_directive_size_lem DirectiveKind.text h = (refl, omega arith)
  data_directive_size_lem DirectiveKind.data_section h = (refl, omega arith)
  data_directive_size_lem DirectiveKind.read_only_data h = (refl, omega arith)
  data_directive_size_lem DirectiveKind.bss h = (refl, omega arith)
  data_directive_size_lem DirectiveKind.global h = (refl, omega arith)
  data_directive_size_lem DirectiveKind.local h = (refl, omega arith)
  data_directive_size_lem DirectiveKind.external h = (refl, omega arith)
  data_directive_size_lem DirectiveKind.debug_file h = (refl, omega arith)
  data_directive_size_lem DirectiveKind.debug_file_bytes h = (refl, omega arith)
  data_directive_size_lem DirectiveKind.debug_location h = (refl, omega arith)
  data_directive_size_lem DirectiveKind.invalid h = (refl, omega arith)

-- Within its capacity a buffer takes bytes as they are.
pub buffer_append_lem :
    (capacity : ℕ) (written bytes : List ℕ)
    → length written + length bytes ≤ capacity
    → buffer_append capacity written bytes ≡ (true, written ++ bytes)
unfolding buffer_append
buffer_append_lem capacity written bytes h = ground arith

pub buffer_fill_lem :
    (capacity : ℕ) (written : List ℕ) (value amount : ℕ)
    → length written + amount ≤ capacity
    → buffer_fill capacity written value amount ≡ (true, written ++ repeated value amount)
unfolding buffer_fill
buffer_fill_lem capacity written value amount h = ground arith

emit_strings_lem :
    (capacity : ℕ) (ops : List Operand) (written : List ℕ)
    → length written + string_bytes ops ≤ capacity
    → emit_strings capacity ops written ≡ (true, written ++ strings_of ops)
unfolding emit_strings
emit_strings_lem capacity [] written h = ap (λ w. (true, w)) (sym (append-nil written))
emit_strings_lem capacity (string s ∷ ops) written h =
    let text = s ++ (0 ∷ []) in
    let counted = length-append s (0 ∷ []) in
    let longer = length-append written text in
    let later = emit_strings_lem capacity ops (written ++ text) (omega arith) in
    let flat : (written ++ text) ++ strings_of ops ≡ written ++ (s ++ (0 ∷ strings_of ops)) =
      append_assoc written text (strings_of ops)
      ∙ ap (λ t. written ++ t) (append_assoc s (0 ∷ []) (strings_of ops)) in
    rw (later, flat) (ground arith)
emit_strings_lem capacity (Operand.none ∷ ops) written h = emit_strings_lem capacity ops written h
emit_strings_lem capacity (Operand.reg r ∷ ops) written h = emit_strings_lem capacity ops written h
emit_strings_lem capacity (imm v ∷ ops) written h = emit_strings_lem capacity ops written h
emit_strings_lem capacity (Operand.mem_reg r ∷ ops) written h =
    emit_strings_lem capacity ops written h
emit_strings_lem capacity (Operand.mem_disp r d ∷ ops) written h =
    emit_strings_lem capacity ops written h
emit_strings_lem capacity (Operand.mem_rip_label l ∷ ops) written h =
    emit_strings_lem capacity ops written h
emit_strings_lem capacity (Operand.label l ∷ ops) written h =
    emit_strings_lem capacity ops written h

emit_integers_lem :
    (capacity size : ℕ) (ops : List Operand) (written : List ℕ)
    → length written + length ops * size ≤ capacity
    → emit_integers capacity size ops written ≡ (true, written ++ values_of size ops)
unfolding emit_integers
emit_integers_lem capacity size [] written h = ap (λ w. (true, w)) (sym (append-nil written))
emit_integers_lem capacity size (op ∷ ops) written h =
    let value = value_bytes size 0 (operand_value op) in
    let counted = length-value_bytes size 0 (operand_value op) in
    let longer = length-append written value in
    let fits = buffer_append_lem capacity written value (omega arith) in
    let later = emit_integers_lem capacity size ops (written ++ value) (omega arith) in
    rw (buffer_append, fits, later, append_assoc written value (values_of size ops)) refl

nothing_lem : (written : List ℕ) → Path (Bool × List ℕ) (true, written) (true, written ++ [])
nothing_lem written = ap (λ w. (true, w)) (sym (append-nil written))

fill_some :
    (capacity : ℕ) (written : List ℕ) (n : ℕ)
    → length written + n ≤ capacity
    → (if ltb_ℤ (pos 0) (pos n) then buffer_fill capacity written 0 n else (true, written))
      ≡ (true, written ++ repeated 0 n)
unfolding repeated
fill_some capacity written zero fits = nothing_lem written
fill_some capacity written (suc n) fits =
    rw (buffer_fill_lem capacity written 0 (suc n) fits) (ground arith)

emit_zeros_lem :
    (capacity : ℕ) (ops : List Operand) (written : List ℕ)
    → space_size ops ≡ pos (space_of ops)
    → length written + space_of ops ≤ capacity
    → emit_zeros capacity ops written ≡ (true, written ++ repeated 0 (space_of ops))
unfolding emit_zeros
emit_zeros_lem capacity ops written same fits =
    rw same (fill_some capacity written (space_of ops) fits)

-- A valid directive is written behind the bytes that are there, where it fits.
pub emit_data_directive_lem :
    (capacity : ℕ) (kind : DirectiveKind) (ops : List Operand) (written : List ℕ)
    → validate_data_directive kind ops ≡ none
    → length written + length (data_bytes kind ops (length written)) ≤ capacity
    → emit_data_directive capacity kind ops written
      ≡ (true, written ++ data_bytes kind ops (length written))
unfolding emit_data_directive data_bytes validate_data_directive
emit_data_directive_lem capacity nul_string ops written h fits =
    emit_strings_lem capacity ops written (omega (arith, length-strings_of ops))
emit_data_directive_lem capacity int8 ops written h fits =
    emit_integers_lem capacity 1 ops written (omega (arith, length-values_of 1 ops))
emit_data_directive_lem capacity int16 ops written h fits =
    emit_integers_lem capacity 2 ops written (omega (arith, length-values_of 2 ops))
emit_data_directive_lem capacity int32 ops written h fits =
    emit_integers_lem capacity 4 ops written (omega (arith, length-values_of 4 ops))
emit_data_directive_lem capacity int64 ops written h fits =
    emit_integers_lem capacity 8 ops written (omega (arith, length-values_of 8 ops))
emit_data_directive_lem capacity alignment ops written h fits =
    let amount = padding (boundary_of ops) (length written) in
    let counted = length-repeated 0 amount in
    emit_padding_lem capacity ops written h
    ∙ buffer_fill_lem capacity written 0 amount (omega arith)
emit_data_directive_lem capacity zero_space ops written h fits =
    let (same, small) = space_size_lem ops h in
    let counted = length-repeated 0 (space_of ops) in
    emit_zeros_lem capacity ops written same (omega arith)
emit_data_directive_lem capacity DirectiveKind.none ops written h fits = nothing_lem written
emit_data_directive_lem capacity DirectiveKind.text ops written h fits = nothing_lem written
emit_data_directive_lem capacity DirectiveKind.data_section ops written h fits = nothing_lem written
emit_data_directive_lem capacity DirectiveKind.read_only_data ops written h fits =
    nothing_lem written
emit_data_directive_lem capacity DirectiveKind.bss ops written h fits = nothing_lem written
emit_data_directive_lem capacity DirectiveKind.global ops written h fits = nothing_lem written
emit_data_directive_lem capacity DirectiveKind.local ops written h fits = nothing_lem written
emit_data_directive_lem capacity DirectiveKind.external ops written h fits = nothing_lem written
emit_data_directive_lem capacity DirectiveKind.debug_file ops written h fits = nothing_lem written
emit_data_directive_lem capacity DirectiveKind.debug_file_bytes ops written h fits =
    nothing_lem written
emit_data_directive_lem capacity DirectiveKind.debug_location ops written h fits =
    nothing_lem written
emit_data_directive_lem capacity DirectiveKind.invalid ops written h fits = nothing_lem written
