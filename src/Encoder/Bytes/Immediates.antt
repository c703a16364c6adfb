-- ===== src/Encoder/Bytes/Immediates.antt =====
-- The immediates of encoder/immediate.c: the little-endian bytes hold the value.
use nazm.Prelude.{ℕ, ◌+◌, ◌*◌, ◌≡◌, List, [], ◌∷◌, ℤ, pos, negsuc, IsI32, IsI64, of_bits, arith}
use nazm.Encoder.Bytes.{emit_imm32, emit_imm64}

-- The number that little-endian bytes stand for.
abbrev pub from_bytes : List ℕ → ℕ
from_bytes [] = 0
from_bytes (b ∷ bs) = b + 256 * from_bytes bs

-- The four bytes of emit_imm32, little-endian, stand for the value in two's complement, for every
-- value of an int32_t.
pub emit_imm32_value : (v : ℤ) → IsI32 v → of_bits 32 (from_bytes (emit_imm32 v)) ≡ v
unfolding emit_imm32
emit_imm32_value (pos n) h = ground arith
emit_imm32_value (negsuc n) h = ground arith

-- The eight bytes of emit_imm64, little-endian, stand for the value in two's complement, for every
-- int64_t.
pub emit_imm64_value : (v : ℤ) → IsI64 v → of_bits 64 (from_bytes (emit_imm64 v)) ≡ v
unfolding emit_imm64
emit_imm64_value (pos n) h = ground arith
emit_imm64_value (negsuc n) h = ground arith
