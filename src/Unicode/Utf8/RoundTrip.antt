-- ===== src/Unicode/Utf8/RoundTrip.antt =====
-- The decoder reads every encoded scalar value, and reads nothing else.
use nazm.Prelude.{
  ℕ, ◌+◌, ◌/◌, ◌%◌, ◌≤◌, ◌<◌, ◌≡◌, ◌∙◌, inl, inr, Bool-cases, List, [], ◌∷◌, ltb, length, arith,
}
use nazm.Unicode.Utf8.{minimum, utf8_next_codepoint}
use nazm.Unicode.Utf8.Encoding.{IsScalar, utf8_encode, HoldsAt, IsBytes}
use nazm.Unicode.Utf8.Branches.{
  accept, sequence_2, sequence_3, sequence_4, next_1, next_2, next_3, next_4,
}

module _ (src : List ℕ) (offset : ℕ) (bytes : IsBytes src) where
  reads_1 :
      (cp : ℕ)
      → cp < 0x80
      → HoldsAt src offset (cp ∷ [])
      → utf8_next_codepoint src offset ≡ (cp, offset + 1)
  reads_1 cp h (l, e, m) = next_1 src offset bytes l (omega arith) ∙ ground arith

  reads_2 :
      (cp : ℕ)
      → 0x80 ≤ cp
      → cp < 0x800
      → HoldsAt src offset ((0xC0 + cp / 64) ∷ (0x80 + cp % 64) ∷ [])
      → utf8_next_codepoint src offset ≡ (cp, offset + 2)
  unfolding accept minimum
  reads_2 cp lo hi (l0, e0, (l1, e1, end)) =
      next_2 src offset bytes l0 (omega arith) (omega arith)
      ∙ sequence_2 src offset bytes _ (omega arith)
      ∙ ground arith

  reads_3 :
      (cp : ℕ)
      → 0x800 ≤ cp
      → cp < 0x1_0000
      → IsScalar cp
      → HoldsAt src offset ((0xE0 + cp / 4096) ∷ (0x80 + cp / 64 % 64) ∷ (0x80 + cp % 64) ∷ [])
      → utf8_next_codepoint src offset ≡ (cp, offset + 3)
  unfolding accept minimum
  reads_3 cp lo hi s (l0, e0, (l1, e1, (l2, e2, end))) =
      next_3 src offset bytes l0 (omega arith) (omega arith)
      ∙ sequence_3 src offset bytes _ (omega arith)
      ∙ ground arith

  reads_4 :
      (cp : ℕ)
      → 0x1_0000 ≤ cp
      → cp ≤ 0x10_FFFF
      → HoldsAt src offset (
          (0xF0 + cp / 26_2144)
          ∷ (0x80 + cp / 4096 % 64)
          ∷ (0x80 + cp / 64 % 64)
          ∷ (0x80 + cp % 64)
          ∷ [])
      → utf8_next_codepoint src offset ≡ (cp, offset + 4)
  unfolding accept minimum
  reads_4 cp lo hi (l0, e0, (l1, e1, (l2, e2, (l3, e3, end)))) =
      next_4 src offset bytes l0 (omega arith) (omega arith)
      ∙ sequence_4 src offset bytes _ (omega arith)
      ∙ ground arith

  -- Where a source of bytes holds the encoding of a scalar value at the offset, the decoder gives
  -- this value and passes exactly its bytes.
  pub next_codepoint-encode :
      (cp : ℕ)
      → IsScalar cp
      → HoldsAt src offset (utf8_encode cp)
      → utf8_next_codepoint src offset ≡ (cp, offset + length (utf8_encode cp))
  unfolding utf8_encode
  next_codepoint-encode cp s h = elim (Bool-cases (ltb cp 0x80)) [
    | inl one ↦ rw one (reads_1 cp (ground arith) (rw one at h))
    | inr more ↦ elim (Bool-cases (ltb cp 0x800)) [
      | inl two ↦ rw (more, two) (reads_2 cp (ground arith) (ground arith) (rw (more, two) at h))
      | inr many ↦ elim (Bool-cases (ltb cp 0x1_0000)) [
        | inl three ↦
            rw (more, many, three)
              (reads_3 cp (ground arith) (ground arith) s (rw (more, many, three) at h))
        | inr four ↦
            rw (more, many, four)
              (reads_4 cp (ground arith) (ground arith) (rw (more, many, four) at h))
      ]
    ]
  ]
