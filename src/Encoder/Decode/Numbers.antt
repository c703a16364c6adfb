-- ===== src/Encoder/Decode/Numbers.antt =====
-- Little-endian numbers read back.
use nazm.Prelude.{
  ℕ, ◌+◌, ◌*◌, ◌≡◌, List, ◌∷◌, some, ℤ, pos, negsuc, IsI8, IsI32, to_u8, shr_ℤ, of_bits, arith,
}
use nazm.Encoder.Decode.{read_disp32, read_disp}

of_u8 : (v : ℤ) → IsI8 v → of_bits 8 (to_u8 v) ≡ v
of_u8 (pos n) (lo, hi) = ground arith
of_u8 (negsuc n) (lo, hi) = ground arith

abbrev word : ℤ → ℕ
word v =
    to_u8 v
    + to_u8 (shr_ℤ v 8) * 0x100
    + to_u8 (shr_ℤ v 16) * 0x1_0000
    + to_u8 (shr_ℤ v 24) * 0x100_0000

of_word : (v : ℤ) → IsI32 v → of_bits 32 (word v) ≡ v
of_word (pos n) (lo, hi) = ground arith
of_word (negsuc n) (lo, hi) = ground arith

pub read_disp8_lem :
    (v : ℤ) (rest : List ℕ) → IsI8 v → read_disp 1 (to_u8 v ∷ rest) ≡ some (v, rest)
unfolding read_disp
read_disp8_lem v rest h = rw (of_u8 v h)

pub read_disp32_lem :
    (v : ℤ) (rest : List ℕ)
    → IsI32 v
    → read_disp32 (to_u8 v ∷ to_u8 (shr_ℤ v 8) ∷ to_u8 (shr_ℤ v 16) ∷ to_u8 (shr_ℤ v 24) ∷ rest)
      ≡ some (v, rest)
unfolding read_disp32
read_disp32_lem v rest h = rw (of_word v h)

pub read_disp2_lem :
    (v : ℤ) (rest : List ℕ)
    → IsI32 v
    → read_disp 2 (to_u8 v ∷ to_u8 (shr_ℤ v 8) ∷ to_u8 (shr_ℤ v 16) ∷ to_u8 (shr_ℤ v 24) ∷ rest)
      ≡ some (v, rest)
unfolding read_disp
read_disp2_lem v rest h = read_disp32_lem v rest h
