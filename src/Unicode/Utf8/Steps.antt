-- ===== src/Unicode/Utf8/Steps.antt =====
-- The decoder's bit operations as arithmetic, one step at a time.
use nazm.Prelude.{
  ℕ, suc, ◌+◌, ◌*◌, ◌%◌, ◌^◌, ◌<◌, ◌≡◌, Bool, ◌&&◌, List, none, ltb, leb, ◌==◌, if◌then◌else◌,
  bit_and, bit_or, bit_or-shift_six, bit_and-low_six, bit_and-top_two, arith,
}
use nazm.Unicode.Utf8.{byte, continuation_loop}
use nazm.Unicode.Utf8.Encoding.{IsBytes, byte-lt}

abbrev pub is_continuation : ℕ → Bool
is_continuation b = leb 0x80 b && ltb b 0xC0

pub continuation_test : (b : ℕ) → b < 256 → (bit_and b 0xC0 == 0x80) ≡ is_continuation b
continuation_test b h = ground (arith, bit_and-top_two b)

pub next_bits :
    (cp b : ℕ)
    → cp < 2 ^ 20
    → b < 256
    → bit_or (cp * 2 ^ 6 % 2 ^ 32) (bit_and b 0x3F) ≡ cp * 64 + b % 64
next_bits cp b hc hb =
    let fits : cp * 2 ^ 6 % 2 ^ 32 ≡ cp * 64 = omega arith in
    rw (fits, bit_and-low_six b hb) (bit_or-shift_six cp (b % 64) (omega arith))

-- One round of the loop.
pub continuation_loop_step :
    (rounds : ℕ) (src : List ℕ) (i cp : ℕ)
    → IsBytes src
    → cp < 2 ^ 20
    → continuation_loop (suc rounds) src i cp ≡ (
        if is_continuation (byte src i)
        then continuation_loop rounds src (i + 1) (cp * 64 + byte src i % 64)
        else none)
unfolding continuation_loop
continuation_loop_step rounds src i cp hs hc =
    rw
      (
        next_bits cp (byte src i) hc (byte-lt src i hs),
        continuation_test (byte src i) (byte-lt src i hs),
      )
      (ground arith)
