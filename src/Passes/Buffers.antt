-- ===== src/Passes/Buffers.antt =====
-- The output buffers of passes/pass2.c and the bytes of the data directives. A buffer is the list
-- of the bytes written so far, `*written` is its length, and its allocated size is an argument; a
-- function that answers false leaves what it has written.
use nazm.Prelude.{
  ℕ, zero, suc, ◌+◌, ◌-◌, ◌*◌, ◌/◌, ◌%◌, ◌^◌, Bool, true, false, ◌&&◌, ◌||◌, not, List, [], ◌∷◌,
  ◌++◌, leb, if◌then◌else◌, pos, pos_part, ltb_ℤ, to_unsigned, length,
}
use nazm.Encoder.Operands.{Operand, imm, string}
use nazm.Passes.Instruction.{
  DirectiveKind, int8, int16, int32, int64, alignment, zero_space, nul_string,
}
use nazm.Passes.Data.{padding, space_size}

abbrev pub buffer_has_capacity : ℕ → ℕ → ℕ → Bool
buffer_has_capacity written amount capacity =
    leb written capacity && leb amount (capacity - written)

unfoldable pub buffer_append : ℕ → List ℕ → List ℕ → Bool × List ℕ
buffer_append capacity written bytes =
    if buffer_has_capacity (length written) (length bytes) capacity
    then (true, written ++ bytes)
    else (false, written)

-- `memset`.
unfoldable pub repeated : ℕ → ℕ → List ℕ
repeated value zero = []
repeated value (suc amount) = value ∷ repeated value amount

unfoldable pub buffer_fill : ℕ → List ℕ → ℕ → ℕ → Bool × List ℕ
unfolding repeated
buffer_fill capacity written value amount =
    if buffer_has_capacity (length written) amount capacity
    then (true, written ++ repeated value amount)
    else (false, written)

-- The loop over the strings.
unfoldable pub emit_strings : ℕ → List Operand → List ℕ → Bool × List ℕ
emit_strings capacity [] written = (true, written)
emit_strings capacity (string s ∷ ops) written =
    let rest = emit_strings capacity ops (written ++ (s ++ (0 ∷ []))) in
    if not (buffer_has_capacity (length written) (length s) capacity)
      || not (buffer_has_capacity (length written + length s) 1 capacity)
    then (false, written)
    else rest
emit_strings capacity (_ ∷ ops) written = emit_strings capacity ops written

-- The bytes of `v` from the lowest on, `rounds` of them from byte `b` on.
unfoldable pub value_bytes : ℕ → ℕ → ℕ → List ℕ
value_bytes zero b v = []
value_bytes (suc rounds) b v = v / 2 ^ (b * 8) % 2 ^ 8 ∷ value_bytes rounds (b + 1) v

abbrev pub operand_value : Operand → ℕ
operand_value (imm v) = to_unsigned 64 v
operand_value _ = 0

-- The loop over the values.
unfoldable pub emit_integers : ℕ → ℕ → List Operand → List ℕ → Bool × List ℕ
unfolding buffer_append value_bytes
emit_integers capacity size [] written = (true, written)
emit_integers capacity size (op ∷ ops) written =
    let (fits, after) = buffer_append capacity written (value_bytes size 0 (operand_value op)) in
    let rest = emit_integers capacity size ops after in if fits then rest else (false, written)

unfoldable pub emit_padding : ℕ → List Operand → List ℕ → Bool × List ℕ
unfolding buffer_fill
emit_padding capacity (imm v ∷ []) written =
    if ltb_ℤ (pos 0) v
    then buffer_fill capacity written 0 (padding (to_unsigned 64 v) (length written))
    else (true, written)
emit_padding capacity ops written = (true, written)

unfoldable pub emit_zeros : ℕ → List Operand → List ℕ → Bool × List ℕ
unfolding buffer_fill
emit_zeros capacity ops written =
    let n = space_size ops in
    if ltb_ℤ (pos 0) n then buffer_fill capacity written 0 (pos_part n) else (true, written)

unfoldable pub emit_data_directive : ℕ → DirectiveKind → List Operand → List ℕ → Bool × List ℕ
unfolding emit_strings emit_integers emit_padding emit_zeros
emit_data_directive capacity nul_string ops written = emit_strings capacity ops written
emit_data_directive capacity int8 ops written = emit_integers capacity 1 ops written
emit_data_directive capacity int16 ops written = emit_integers capacity 2 ops written
emit_data_directive capacity int32 ops written = emit_integers capacity 4 ops written
emit_data_directive capacity int64 ops written = emit_integers capacity 8 ops written
emit_data_directive capacity alignment ops written = emit_padding capacity ops written
emit_data_directive capacity zero_space ops written = emit_zeros capacity ops written
emit_data_directive capacity kind ops written = (true, written)
