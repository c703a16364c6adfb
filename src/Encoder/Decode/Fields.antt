-- ===== src/Encoder/Decode/Fields.antt =====
-- The bytes that rex.c and modrm.c build, as arithmetic; each is checked at all its values.
use nazm.Prelude.{ℕ, ◌+◌, ◌*◌, ◌<◌, ◌≡◌, refl, true, ◌==◌, ==_iff, holds_below, holds_below-lt}
use nazm.Encoder.Bytes.{modrm_byte, sib_byte}

table :
    holds_below
      (λ m. holds_below (λ r. holds_below (λ b. modrm_byte m r b == m * 64 + r * 8 + b) 8) 8)
      4
    ≡ true
unfolding holds_below modrm_byte
table = refl

-- ModRM holds its three fields side by side.
pub modrm_byte_fields : (m r b : ℕ) → m < 4 → r < 8 → b < 8 → modrm_byte m r b ≡ m * 64 + r * 8 + b
modrm_byte_fields m r b hm hr hb =
    (==_iff _ _).0
      (holds_below-lt _ 8 b hb (holds_below-lt _ 8 r hr (holds_below-lt _ 4 m hm table)))

pub sib_byte_lem : (s i b : ℕ) → sib_byte s i b ≡ modrm_byte s i b
unfolding sib_byte modrm_byte
sib_byte_lem s i b = refl
