-- ===== src/Unicode/Utf8/WellFormed.antt =====
-- What the decoder's answers mean to its callers: progress and well-formedness.
use nazm.Prelude.{
  ℕ, ◌+◌, ◌-◌, ◌≤◌, ◌<◌, ◌≡◌, ◌↔◌, inr, Bool, true, ◌||◌, not, List, [], ◌∷◌, ◌==◌, length, arith,
}
use nazm.Unicode.Utf8.{utf8_next_codepoint, utf8_is_well_formed_at}
use nazm.Unicode.Utf8.Encoding.{IsScalar, utf8_encode, HoldsAt, IsBytes}
use nazm.Unicode.Utf8.RoundTrip.{next_codepoint-encode}
use nazm.Unicode.Utf8.Sound.{IsDecoded, scalar, ill_formed, next_codepoint-IsDecoded}

HoldsAt-inside :
    (src : List ℕ) (offset : ℕ) (xs : List ℕ)
    → HoldsAt src offset xs
    → offset + length xs ≤ length src
HoldsAt-inside src offset [] h = omega arith
HoldsAt-inside src offset (x ∷ xs) h = omega (arith, HoldsAt-inside src (offset + 1) xs h.2)

length-encode : (cp : ℕ) → (1 ≤ length (utf8_encode cp)) × (length (utf8_encode cp) ≤ 4)
unfolding utf8_encode
length-encode cp = ground arith

replacement_long : (cp : ℕ) → cp ≡ 0xFFFD → length (utf8_encode cp) ≡ 3
unfolding utf8_encode
replacement_long cp h = ground arith

decoded_progress :
    (src : List ℕ) (offset : ℕ) {cp next : ℕ}
    → offset < length src
    → IsDecoded src offset cp next
    → (offset < next) × (next ≤ length src) × (next ≤ offset + 4) × IsScalar cp
decoded_progress src offset h (scalar cp next s there e) =
    let inside = HoldsAt-inside src offset (utf8_encode cp) there in
    let (lo, hi) = length-encode cp in (omega arith, omega arith, omega arith, s)
decoded_progress src offset h (ill_formed cp next e f) =
    (omega arith, omega arith, omega arith, inr (omega arith))

-- At an offset inside a source of bytes the decoder advances by one to four bytes, does not pass the
-- end, and gives a scalar value, never a surrogate.
pub next_codepoint_progress :
    (src : List ℕ) (offset : ℕ)
    → IsBytes src
    → offset < length src
    → (offset < (utf8_next_codepoint src offset).1)
      × ((utf8_next_codepoint src offset).1 ≤ length src)
      × ((utf8_next_codepoint src offset).1 ≤ offset + 4)
      × IsScalar (utf8_next_codepoint src offset).0
next_codepoint_progress src offset bytes h =
    decoded_progress src offset h (next_codepoint-IsDecoded src offset bytes h)

-- The test of `utf8_is_well_formed_at`, over the answer of the decoder.
abbrev passes : ℕ → ℕ → ℕ → Bool
passes offset cp next = not (cp == 0xFFFD) || next - offset == 3

decoded_well_formed :
    (src : List ℕ) (offset : ℕ) {cp next : ℕ}
    → IsDecoded src offset cp next
    → passes offset cp next ≡ true
    → (c : ℕ) × IsScalar c × HoldsAt src offset (utf8_encode c)
decoded_well_formed src offset (scalar cp next s there e) t = (cp, s, there)
decoded_well_formed src offset (ill_formed cp next e f) t = absurd (ground arith)

-- An offset inside a source of bytes is well formed exactly when the encoding of a scalar value stands
-- there.
pub well_formed_iff :
    (src : List ℕ) (offset : ℕ)
    → IsBytes src
    → offset < length src
    → (utf8_is_well_formed_at src offset ≡ true)
      ↔ ((cp : ℕ) × IsScalar cp × HoldsAt src offset (utf8_encode cp))
unfolding utf8_is_well_formed_at
well_formed_iff src offset bytes h = (
  decoded_well_formed src offset (next_codepoint-IsDecoded src offset bytes h),
  λ (cp, s, there).
      rw (next_codepoint-encode src offset bytes cp s there) (ground (arith, replacement_long cp)),
)
