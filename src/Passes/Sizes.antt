-- ===== src/Passes/Sizes.antt =====
-- The data directives of src/passes emit as many bytes as the first pass counts: the bytes of a
-- directive, its size, and the two functions of the code.
use nazm.Prelude.{
  ℕ, zero, suc, ◌+◌, ◌*◌, ◌%◌, ◌^◌, ◌≤◌, ◌<◌, ◌≡◌, refl, ap, List, [], ◌∷◌, ◌++◌, none, length,
  length-append, pos, negsuc, arith,
}
use nazm.Encoder.Operands.{Operand, imm, string}
use nazm.Passes.Instruction.{
  DirectiveKind, int8, int16, int32, int64, alignment, zero_space, nul_string, string_bytes,
}
use nazm.Passes.Data.{
  string_total, values_size, space_size, padding_size, padding, validate_space, validate_alignment,
}
use nazm.Passes.Buffers.{buffer_fill, emit_padding, repeated, value_bytes, operand_value}

pub length-repeated : (value amount : ℕ) → length (repeated value amount) ≡ amount
unfolding repeated
length-repeated value zero = refl
length-repeated value (suc amount) = ap suc (length-repeated value amount)

pub length-value_bytes : (rounds b v : ℕ) → length (value_bytes rounds b v) ≡ rounds
unfolding value_bytes
length-value_bytes zero b v = refl
length-value_bytes (suc rounds) b v = ap suc (length-value_bytes rounds (b + 1) v)

-- The strings with their NULs, and the values in `size` bytes each.
abbrev pub strings_of : List Operand → List ℕ
strings_of [] = []
strings_of (string s ∷ ops) = s ++ (0 ∷ strings_of ops)
strings_of (_ ∷ ops) = strings_of ops

abbrev pub values_of : ℕ → List Operand → List ℕ
values_of size [] = []
values_of size (op ∷ ops) = value_bytes size 0 (operand_value op) ++ values_of size ops

abbrev pub boundary_of : List Operand → ℕ
boundary_of (imm (pos v) ∷ []) = v
boundary_of _ = 0

abbrev pub space_of : List Operand → ℕ
space_of (imm (pos v) ∷ _) = v
space_of _ = 0

-- The bytes that a valid directive stands for, at an offset of its section.
unfoldable pub data_bytes : DirectiveKind → List Operand → ℕ → List ℕ
data_bytes nul_string ops offset = strings_of ops
data_bytes int8 ops offset = values_of 1 ops
data_bytes int16 ops offset = values_of 2 ops
data_bytes int32 ops offset = values_of 4 ops
data_bytes int64 ops offset = values_of 8 ops
data_bytes alignment ops offset = repeated 0 (padding (boundary_of ops) offset)
data_bytes zero_space ops offset = repeated 0 (space_of ops)
data_bytes _ ops offset = []

pub length-strings_of : (ops : List Operand) → length (strings_of ops) ≡ string_bytes ops
length-strings_of [] = refl
length-strings_of (string s ∷ ops) =
    omega (arith, length-append s (0 ∷ strings_of ops), length-strings_of ops)
length-strings_of (Operand.none ∷ ops) = length-strings_of ops
length-strings_of (Operand.reg r ∷ ops) = length-strings_of ops
length-strings_of (imm v ∷ ops) = length-strings_of ops
length-strings_of (Operand.mem_reg r ∷ ops) = length-strings_of ops
length-strings_of (Operand.mem_disp r d ∷ ops) = length-strings_of ops
length-strings_of (Operand.mem_rip_label l ∷ ops) = length-strings_of ops
length-strings_of (Operand.label l ∷ ops) = length-strings_of ops

pub length-values_of :
    (size : ℕ) (ops : List Operand) → length (values_of size ops) ≡ length ops * size
length-values_of size [] = omega arith
length-values_of size (op ∷ ops) = omega (
  arith,
  length-append (value_bytes size 0 (operand_value op)) (values_of size ops),
  length-value_bytes size 0 (operand_value op),
  length-values_of size ops,
)

pub string_total_lem :
    (total : ℕ) (ops : List Operand)
    → total + string_bytes ops < 2 ^ 32
    → string_total total ops ≡ total + string_bytes ops
unfolding string_total
string_total_lem total [] h = omega arith
string_total_lem total (string s ∷ ops) h =
    let next : (total + length s % 2 ^ 32 + 1) % 2 ^ 32 ≡ total + length s + 1 = omega arith in
    rw next (omega (arith, string_total_lem (total + length s + 1) ops (omega arith)))
string_total_lem total (Operand.none ∷ ops) h = string_total_lem total ops h
string_total_lem total (Operand.reg r ∷ ops) h = string_total_lem total ops h
string_total_lem total (imm v ∷ ops) h = string_total_lem total ops h
string_total_lem total (Operand.mem_reg r ∷ ops) h = string_total_lem total ops h
string_total_lem total (Operand.mem_disp r d ∷ ops) h = string_total_lem total ops h
string_total_lem total (Operand.mem_rip_label l ∷ ops) h = string_total_lem total ops h
string_total_lem total (Operand.label l ∷ ops) h = string_total_lem total ops h

pub values_size_lem :
    (size : ℕ) (ops : List Operand) → values_size size ops ≡ pos (length (values_of size ops))
values_size_lem size [] = refl
values_size_lem size (op ∷ ops) = ground (arith, length-values_of size (op ∷ ops))

pub padding-lt : (boundary offset : ℕ) → 1 ≤ boundary → padding boundary offset < boundary
padding-lt boundary offset h = omega arith

-- What `validate_alignment` and `validate_space` let through.
pub validate_alignment-boundary :
    (ops : List Operand)
    → validate_alignment ops ≡ none
    → (1 ≤ boundary_of ops) × (boundary_of ops ≤ 4096)
unfolding validate_alignment
validate_alignment-boundary (imm (pos v) ∷ []) h = ground arith
validate_alignment-boundary (imm (negsuc v) ∷ []) h = absurd (ground arith)
validate_alignment-boundary [] h = absurd (ground arith)
validate_alignment-boundary (op ∷ p ∷ ops) h = absurd (ground arith)
validate_alignment-boundary (op ∷ []) h = absurd (ground arith)

pub padding_size_lem :
    (ops : List Operand) (offset : ℕ)
    → validate_alignment ops ≡ none
    → padding_size ops offset ≡ pos (padding (boundary_of ops) offset)
unfolding validate_alignment
padding_size_lem (imm (pos v) ∷ []) offset h =
    let (positive, small) = validate_alignment-boundary (imm (pos v) ∷ []) h in
    let below = padding-lt v offset positive in
    let same : v % 2 ^ 64 ≡ v = omega arith in rw same (ground arith)
padding_size_lem (imm (negsuc v) ∷ []) offset h = absurd (ground arith)
padding_size_lem [] offset h = absurd (ground arith)
padding_size_lem (op ∷ p ∷ ops) offset h = absurd (ground arith)
padding_size_lem (op ∷ []) offset h = absurd (ground arith)

pub emit_padding_lem :
    (capacity : ℕ) (ops : List Operand) (written : List ℕ)
    → validate_alignment ops ≡ none
    → emit_padding capacity ops written
      ≡ buffer_fill capacity written 0 (padding (boundary_of ops) (length written))
unfolding validate_alignment emit_padding
emit_padding_lem capacity (imm (pos v) ∷ []) written h =
    let (positive, small) = validate_alignment-boundary (imm (pos v) ∷ []) h in
    let same : v % 2 ^ 64 ≡ v = omega arith in rw same (ground arith)
emit_padding_lem capacity (imm (negsuc v) ∷ []) written h = absurd (ground arith)
emit_padding_lem capacity [] written h = absurd (ground arith)
emit_padding_lem capacity (op ∷ p ∷ ops) written h = absurd (ground arith)
emit_padding_lem capacity (op ∷ []) written h = absurd (ground arith)

pub space_size_lem :
    (ops : List Operand)
    → validate_space ops ≡ none
    → (space_size ops ≡ pos (space_of ops)) × (space_of ops ≤ 0x7fff_ffff)
unfolding validate_space
space_size_lem (imm (pos v) ∷ []) h = ground arith
space_size_lem (imm (negsuc v) ∷ []) h = absurd (ground arith)
space_size_lem [] h = absurd (ground arith)
space_size_lem (op ∷ p ∷ ops) h = absurd (ground arith)
space_size_lem (op ∷ []) h = absurd (ground arith)
