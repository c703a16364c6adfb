-- ===== src/Passes/Values.antt =====
-- The integer directives of src/passes: the values that the first pass takes, and the bytes that the
-- second pass writes for them.
use nazm.Prelude.{ℕ, ◌*◌, ◌≡◌, ◌↔◌, true, List, ℤ, pos, negsuc, ◌≤ℤ◌, IsI64, of_bits, arith}
use nazm.Encoder.Operands.{imm}
use nazm.Encoder.Bytes.Immediates.{from_bytes}
use nazm.Passes.Data.{data_value_fits_width}
use nazm.Passes.Buffers.{value_bytes, operand_value}

-- The bytes of a value in `size` bytes.
abbrev bytes_of : ℕ → ℤ → List ℕ
bytes_of size v = value_bytes size 0 (operand_value (imm v))

-- The bytes stand for the value: unsigned for a value that is not negative, and in two's complement
-- for a negative one.
abbrev pub Stands : ℕ → ℤ → Type 0
Stands size (pos n) = from_bytes (bytes_of size (pos n)) ≡ n
Stands size (negsuc n) = of_bits (size * 8) (from_bytes (bytes_of size (negsuc n))) ≡ negsuc n

byte-Stands : (v : ℤ) → IsI64 v → data_value_fits_width v 8 ≡ true → Stands 1 v
unfolding data_value_fits_width value_bytes
byte-Stands (pos n) h fits = ground arith
byte-Stands (negsuc n) h fits = ground arith

word-Stands : (v : ℤ) → IsI64 v → data_value_fits_width v 16 ≡ true → Stands 2 v
unfolding data_value_fits_width value_bytes
word-Stands (pos n) h fits = ground arith
word-Stands (negsuc n) h fits = ground arith

double-Stands : (v : ℤ) → IsI64 v → data_value_fits_width v 32 ≡ true → Stands 4 v
unfolding data_value_fits_width value_bytes
double-Stands (pos n) h fits = ground arith
double-Stands (negsuc n) h fits = ground arith

quad-Stands : (v : ℤ) → IsI64 v → Stands 8 v
unfolding value_bytes
quad-Stands (pos n) h = ground arith
quad-Stands (negsuc n) h = ground arith

fits_iff :
    (v : ℤ)
    → IsI64 v
    → ((data_value_fits_width v 8 ≡ true) ↔ ((negsuc 127 ≤ℤ v) × (v ≤ℤ pos 255)))
      × ((data_value_fits_width v 16 ≡ true) ↔ ((negsuc 32767 ≤ℤ v) × (v ≤ℤ pos 65535)))
      × ((data_value_fits_width v 32 ≡ true) ↔ ((negsuc 0x7fff_ffff ≤ℤ v) × (v ≤ℤ pos 0xffff_ffff)))
      × (data_value_fits_width v 64 ≡ true)
unfolding data_value_fits_width
fits_iff (pos n) h = ground arith
fits_iff (negsuc n) h = ground arith

-- A value of an int64_t is taken by the directives of 8, 16, 32 and 64 bits exactly where it is one of
-- the signed or the unsigned values of the width; and then the bytes that are written for it,
-- little-endian, stand for it: unsigned if it is not negative, in two's complement if it is.
pub data_value_fits_width-Stands :
    (v : ℤ)
    → IsI64 v
    → ((data_value_fits_width v 8 ≡ true) ↔ ((negsuc 127 ≤ℤ v) × (v ≤ℤ pos 255)))
      × ((data_value_fits_width v 16 ≡ true) ↔ ((negsuc 32767 ≤ℤ v) × (v ≤ℤ pos 65535)))
      × ((data_value_fits_width v 32 ≡ true) ↔ ((negsuc 0x7fff_ffff ≤ℤ v) × (v ≤ℤ pos 0xffff_ffff)))
      × (data_value_fits_width v 64 ≡ true)
      × (data_value_fits_width v 8 ≡ true → Stands 1 v)
      × (data_value_fits_width v 16 ≡ true → Stands 2 v)
      × (data_value_fits_width v 32 ≡ true → Stands 4 v)
      × Stands 8 v
data_value_fits_width-Stands v h =
    let (byte, word, double, quad) = fits_iff v h in
    (byte, word, double, quad, byte-Stands v h, word-Stands v h, double-Stands v h, quad-Stands v h)
