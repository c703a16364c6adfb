-- ===== src/Unicode/Utf8/Branches.antt =====
-- The decoder's branches in plain arithmetic.
use nazm.Prelude.{
  ℕ, ◌+◌, ◌*◌, ◌%◌, ◌^◌, ◌≤◌, ◌<◌, ◌≡◌, ◌⊎◌, refl, ◌&&◌, ◌||◌, List, none, some, ltb, leb,
  if◌then◌else◌, length, bit_and, bit_and-lead, arith,
}
use nazm.Unicode.Utf8.{byte, replacement, continuation_loop, minimum, sequence, utf8_next_codepoint}
use nazm.Unicode.Utf8.Encoding.{IsBytes, byte-lt}
use nazm.Unicode.Utf8.Steps.{continuation_loop_step, is_continuation}

loop-zero : (src : List ℕ) (i cp : ℕ) → continuation_loop 0 src i cp ≡ some cp
unfolding continuation_loop
loop-zero src i cp = refl

-- The end of `sequence`: the value that the bits give, if it is one that `n` bytes are for.
unfoldable pub accept : ℕ → ℕ → ℕ → ℕ × ℕ
accept offset n cp =
    if ltb cp (minimum n) || leb 0xD800 cp && leb cp 0xDFFF || ltb 0x10_FFFF cp
    then (replacement, offset + 1)
    else (cp, offset + n)

module _ (src : List ℕ) (offset : ℕ) (bytes : IsBytes src) where
  -- The bits of the lead byte.
  lead_bits :
      (bit_and (byte src offset) 0x1F ≡ byte src offset % 32)
      × (bit_and (byte src offset) 0x0F ≡ byte src offset % 16)
      × (bit_and (byte src offset) 0x07 ≡ byte src offset % 8)
  lead_bits = bit_and-lead (byte src offset) (byte-lt src offset bytes)

  loop_1 :
      (i cp : ℕ)
      → cp < 2 ^ 20
      → continuation_loop 1 src i cp
        ≡ (if is_continuation (byte src i) then some (cp * 64 + byte src i % 64) else none)
  loop_1 i cp h = ground (
    arith,
    continuation_loop_step 0 src i cp bytes h,
    loop-zero src (i + 1) (cp * 64 + byte src i % 64),
  )

  loop_2 :
      (i cp : ℕ)
      → cp < 2 ^ 13
      → continuation_loop 2 src i cp ≡ (
          if is_continuation (byte src i) && is_continuation (byte src (i + 1))
          then some ((cp * 64 + byte src i % 64) * 64 + byte src (i + 1) % 64)
          else none)
  loop_2 i cp h = ground (
    arith,
    continuation_loop_step 1 src i cp bytes (omega arith),
    loop_1 (i + 1) (cp * 64 + byte src i % 64) (omega arith),
  )

  loop_3 :
      (i cp : ℕ)
      → cp < 2 ^ 6
      → continuation_loop 3 src i cp ≡ (
          if is_continuation (byte src i)
            && (is_continuation (byte src (i + 1)) && is_continuation (byte src (i + 1 + 1)))
          then some (
              ((cp * 64 + byte src i % 64) * 64 + byte src (i + 1) % 64) * 64
              + byte src (i + 1 + 1) % 64)
          else none)
  loop_3 i cp h = ground (
    arith,
    continuation_loop_step 2 src i cp bytes (omega arith),
    loop_2 (i + 1) (cp * 64 + byte src i % 64) (omega arith),
  )

  pub sequence_2 :
      (cp : ℕ)
      → cp < 2 ^ 20
      → sequence src offset 2 cp ≡ (
          if leb (offset + 2) (length src) && is_continuation (byte src (offset + 1))
          then accept offset 2 (cp * 64 + byte src (offset + 1) % 64)
          else (replacement, offset + 1))
  unfolding sequence accept
  sequence_2 cp h = ground (arith, loop_1 (offset + 1) cp h)

  pub sequence_3 :
      (cp : ℕ)
      → cp < 2 ^ 13
      → sequence src offset 3 cp ≡ (
          if leb (offset + 3) (length src)
            && (is_continuation (byte src (offset + 1))
                && is_continuation (byte src (offset + 1 + 1)))
          then accept offset 3
              ((cp * 64 + byte src (offset + 1) % 64) * 64 + byte src (offset + 1 + 1) % 64)
          else (replacement, offset + 1))
  unfolding sequence accept
  sequence_3 cp h = ground (arith, loop_2 (offset + 1) cp h)

  pub sequence_4 :
      (cp : ℕ)
      → cp < 2 ^ 6
      → sequence src offset 4 cp ≡ (
          if leb (offset + 4) (length src)
            && (is_continuation (byte src (offset + 1))
                && (is_continuation (byte src (offset + 1 + 1))
                    && is_continuation (byte src (offset + 1 + 1 + 1))))
          then accept offset 4 (
              ((cp * 64 + byte src (offset + 1) % 64) * 64 + byte src (offset + 1 + 1) % 64) * 64
              + byte src (offset + 1 + 1 + 1) % 64)
          else (replacement, offset + 1))
  unfolding sequence accept
  sequence_4 cp h = ground (arith, loop_3 (offset + 1) cp h)

  -- The dispatch on the lead byte.
  pub next_1 :
      offset < length src
      → byte src offset < 0x80
      → utf8_next_codepoint src offset ≡ (byte src offset, offset + 1)
  unfolding utf8_next_codepoint
  next_1 h l = ground arith

  pub next_2 :
      offset < length src
      → 0xC2 ≤ byte src offset
      → byte src offset ≤ 0xDF
      → utf8_next_codepoint src offset ≡ sequence src offset 2 (byte src offset % 32)
  unfolding utf8_next_codepoint
  next_2 h l u = rw (← lead_bits.0) (ground arith)

  pub next_3 :
      offset < length src
      → 0xE0 ≤ byte src offset
      → byte src offset ≤ 0xEF
      → utf8_next_codepoint src offset ≡ sequence src offset 3 (byte src offset % 16)
  unfolding utf8_next_codepoint
  next_3 h l u = rw (← lead_bits.1) (ground arith)

  pub next_4 :
      offset < length src
      → 0xF0 ≤ byte src offset
      → byte src offset ≤ 0xF4
      → utf8_next_codepoint src offset ≡ sequence src offset 4 (byte src offset % 8)
  unfolding utf8_next_codepoint
  next_4 h l u = rw (← lead_bits.2) (ground arith)

  pub next_other :
      offset < length src
      → ((0x80 ≤ byte src offset) × (byte src offset < 0xC2)) ⊎ (0xF4 < byte src offset)
      → utf8_next_codepoint src offset ≡ (replacement, offset + 1)
  unfolding utf8_next_codepoint
  next_other h l = ground arith
