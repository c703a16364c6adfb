-- ===== src/Unicode/Utf8/Sound.antt =====
-- Whatever the decoder answers stands in the source, or is the replacement for one byte.
use nazm.Prelude.{
  ℕ, ◌+◌, ◌*◌, ◌/◌, ◌%◌, ◌≤◌, ◌<◌, ◌≡◌, inl, inr, refl, Bool, true, false, ◌&&◌, ◌||◌, Bool-cases,
  List, [], ◌∷◌, ltb, leb, if◌then◌else◌, length, arith,
}
use nazm.Unicode.Utf8.{byte, replacement, minimum, utf8_next_codepoint}
use nazm.Unicode.Utf8.Encoding.{IsScalar, utf8_encode, HoldsAt, IsBytes}
use nazm.Unicode.Utf8.Steps.{is_continuation}
use nazm.Unicode.Utf8.Branches.{
  accept, sequence_2, sequence_3, sequence_4, next_1, next_2, next_3, next_4, next_other,
}

encode_1 : (cp : ℕ) → cp < 0x80 → utf8_encode cp ≡ cp ∷ []
unfolding utf8_encode
encode_1 cp h = ground arith

encode_2 :
    (cp : ℕ) → 0x80 ≤ cp → cp < 0x800 → utf8_encode cp ≡ (0xC0 + cp / 64) ∷ (0x80 + cp % 64) ∷ []
unfolding utf8_encode
encode_2 cp h l = ground arith

encode_3 :
    (cp : ℕ)
    → 0x800 ≤ cp
    → cp < 0x1_0000
    → utf8_encode cp ≡ (0xE0 + cp / 4096) ∷ (0x80 + cp / 64 % 64) ∷ (0x80 + cp % 64) ∷ []
unfolding utf8_encode
encode_3 cp h l = ground arith

encode_4 :
    (cp : ℕ)
    → 0x1_0000 ≤ cp
    → utf8_encode cp
      ≡ (0xF0 + cp / 26_2144)
        ∷ (0x80 + cp / 4096 % 64)
        ∷ (0x80 + cp / 64 % 64)
        ∷ (0x80 + cp % 64)
        ∷ []
unfolding utf8_encode
encode_4 cp h = ground arith

module _ (src : List ℕ) (offset : ℕ) where
  -- A pair of a code point and the next offset: a scalar value that stands there, or the
  -- replacement for one byte.
  pub data IsDecoded : ℕ → ℕ → Type 0 where
    scalar :
        (cp next : ℕ)
        → IsScalar cp
        → HoldsAt src offset (utf8_encode cp)
        → next ≡ offset + length (utf8_encode cp)
        → IsDecoded cp next
    ill_formed : (cp next : ℕ) → cp ≡ replacement → next ≡ offset + 1 → IsDecoded cp next

  abbrev Decoded : ℕ × ℕ → Type 0
  Decoded r = IsDecoded r.0 r.1

  replaced : Decoded (replacement, offset + 1)
  replaced = ill_formed _ _ refl refl

  if-Decoded :
      (c : Bool) (r : ℕ × ℕ)
      → (c ≡ true → Decoded r)
      → Decoded (if c then r else (replacement, offset + 1))
  if-Decoded true r h = h refl
  if-Decoded false r h = replaced

  -- `accept` asks only for its value to stand there when it has `n` bytes.
  accept-Decoded :
      (n cp : ℕ)
      → (minimum n ≤ cp
          → IsScalar cp
          → HoldsAt src offset (utf8_encode cp) × (length (utf8_encode cp) ≡ n))
      → Decoded (accept offset n cp)
  unfolding accept
  accept-Decoded n cp h =
      elim (Bool-cases (ltb cp (minimum n) || leb 0xD800 cp && leb cp 0xDFFF || ltb 0x10_FFFF cp)) [
        | inl bad ↦ rw bad replaced
        | inr good ↦
            let s : IsScalar cp = ground arith in
            let (there, long) = h (ground arith) s in rw good (scalar _ _ s there (omega arith))
      ]

  module _ (bytes : IsBytes src) (inside : offset < length src) where
    one_byte-IsDecoded : byte src offset < 0x80 → Decoded (utf8_next_codepoint src offset)
    one_byte-IsDecoded l = rw (next_1 src offset bytes inside l) (
        scalar _ _ (inl (omega arith)) (rw (encode_1 _ l) (inside, refl, omega arith))
          (rw (encode_1 _ l) refl))

    two_bytes-IsDecoded :
        0xC2 ≤ byte src offset → byte src offset ≤ 0xDF → Decoded (utf8_next_codepoint src offset)
    unfolding minimum
    two_bytes-IsDecoded l u =
        let v : ℕ = byte src offset % 32 * 64 + byte src (offset + 1) % 64 in
        rw
          (
            next_2 src offset bytes inside l u,
            sequence_2 src offset bytes (byte src offset % 32) (omega arith),
          )
          (if-Decoded (leb (offset + 2) (length src) && is_continuation (byte src (offset + 1)))
            (accept offset 2 v)
            λ c. accept-Decoded 2 v λ lo _.
              rw (encode_2 v lo (ground arith))
                ((inside, ground arith, (ground arith, ground arith, ground arith)), refl))

    three_bytes-IsDecoded :
        0xE0 ≤ byte src offset → byte src offset ≤ 0xEF → Decoded (utf8_next_codepoint src offset)
    unfolding minimum
    three_bytes-IsDecoded l u =
        let v : ℕ =
          (byte src offset % 16 * 64 + byte src (offset + 1) % 64) * 64
          + byte src (offset + 1 + 1) % 64 in
        rw
          (
            next_3 src offset bytes inside l u,
            sequence_3 src offset bytes (byte src offset % 16) (omega arith),
          )
          (if-Decoded
            (leb (offset + 3) (length src)
              && (is_continuation (byte src (offset + 1))
                  && is_continuation (byte src (offset + 1 + 1))))
            (accept offset 3 v)
            λ c. accept-Decoded 3 v λ lo _. rw (encode_3 v lo (ground arith)) (
              (
                inside,
                ground arith,
                (ground arith, ground arith, (ground arith, ground arith, ground arith)),
              ),
              refl,
            ))

    four_bytes-IsDecoded :
        0xF0 ≤ byte src offset → byte src offset ≤ 0xF4 → Decoded (utf8_next_codepoint src offset)
    unfolding minimum
    four_bytes-IsDecoded l u =
        let v : ℕ =
          ((byte src offset % 8 * 64 + byte src (offset + 1) % 64) * 64
              + byte src (offset + 1 + 1) % 64)
            * 64
          + byte src (offset + 1 + 1 + 1) % 64 in
        rw
          (
            next_4 src offset bytes inside l u,
            sequence_4 src offset bytes (byte src offset % 8) (omega arith),
          )
          (if-Decoded
            (leb (offset + 4) (length src)
              && (is_continuation (byte src (offset + 1))
                  && (is_continuation (byte src (offset + 1 + 1))
                      && is_continuation (byte src (offset + 1 + 1 + 1)))))
            (accept offset 4 v)
            λ c. accept-Decoded 4 v λ lo _. rw (encode_4 v lo) (
              (
                inside,
                ground arith,
                (
                  ground arith,
                  ground arith,
                  (ground arith, ground arith, (ground arith, ground arith, ground arith)),
                ),
              ),
              refl,
            ))

    -- Inside the source the decoder gives a scalar value whose encoding stands there, or U+FFFD for
    -- a single byte.
    pub next_codepoint-IsDecoded :
        IsDecoded (utf8_next_codepoint src offset).0 (utf8_next_codepoint src offset).1
    next_codepoint-IsDecoded = elim (Bool-cases (ltb (byte src offset) 0x80)) [
      | inl ascii ↦ one_byte-IsDecoded (ground arith)
      | inr past_a ↦ elim (Bool-cases (leb 0xC2 (byte src offset) && leb (byte src offset) 0xDF)) [
        | inl two ↦ two_bytes-IsDecoded (ground arith) (ground arith)
        | inr past_b ↦
            elim (Bool-cases (leb 0xE0 (byte src offset) && leb (byte src offset) 0xEF)) [
              | inl three ↦ three_bytes-IsDecoded (ground arith) (ground arith)
              | inr past_c ↦
                  elim (Bool-cases (leb 0xF0 (byte src offset) && leb (byte src offset) 0xF4)) [
                    | inl four ↦ four_bytes-IsDecoded (ground arith) (ground arith)
                    | inr past_d ↦ rw (next_other src offset bytes inside (ground arith)) replaced
                  ]
            ]
      ]
    ]
