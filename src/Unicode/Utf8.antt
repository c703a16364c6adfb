-- ===== src/Unicode/Utf8.antt =====
-- The UTF-8 functions of unicode/arabic.c. A source is its list of bytes, and `src_len` is the
-- length of that list; `*offset` is an argument and a result.
pub mod Encoding
pub mod Steps
pub mod Branches
pub mod RoundTrip
pub mod Sound
pub mod WellFormed
pub mod Prefix
use nazm.Prelude.{
  ℕ, zero, suc, ◌+◌, ◌-◌, ◌*◌, ◌%◌, ◌^◌, Bool, true, false, ◌&&◌, ◌||◌, not, List, [], ◌∷◌, Option,
  none, some, ltb, leb, ◌==◌, if◌then◌else◌, length, get_elem?, bit_and, bit_or,
}

-- `src[i]`; every access of the code is below `src_len`.
abbrev pub byte : List ℕ → ℕ → ℕ
byte src i = elim (get_elem? src i) [ none ↦ 0 | some b ↦ b ]

-- `U+FFFD`, the answer to an ill-formed sequence, which takes one byte.
abbrev pub replacement : ℕ
replacement = 0xFFFD

-- The loop over the continuation bytes: `rounds` of them are left, the first at `i`.
unfoldable pub continuation_loop : ℕ → List ℕ → ℕ → ℕ → Option ℕ
continuation_loop zero src i cp = some cp
continuation_loop (suc rounds) src i cp =
    let b = byte src i in
    let rest =
      continuation_loop rounds src (i + 1) (bit_or (cp * 2 ^ 6 % 2 ^ 32) (bit_and b 0x3F)) in
    if not (bit_and b 0xC0 == 0x80) then none else rest

unfoldable pub minimum : ℕ → ℕ
minimum bytes = if bytes == 2 then 0x80 else if bytes == 3 then 0x800 else 0x1_0000

-- The sequence of `bytes` bytes at `offset`, whose lead byte gave the bits `cp`.
unfoldable pub sequence : List ℕ → ℕ → ℕ → ℕ → ℕ × ℕ
unfolding continuation_loop minimum
sequence src offset bytes cp =
    if ltb (length src - offset) bytes
    then (replacement, offset + 1)
    else elim (continuation_loop (bytes - 1) src (offset + 1) cp) [
      | none ↦ (replacement, offset + 1)
      | some cp ↦
          if ltb cp (minimum bytes) || leb 0xD800 cp && leb cp 0xDFFF || ltb 0x10_FFFF cp
          then (replacement, offset + 1)
          else (cp, offset + bytes)
    ]

-- The code point at `offset`, and the offset behind it.
unfoldable pub utf8_next_codepoint : List ℕ → ℕ → ℕ × ℕ
unfolding sequence
utf8_next_codepoint src offset =
    let b0 = byte src offset in
    if leb (length src) offset
    then (0, offset)
    else if ltb b0 0x80
    then (b0, offset + 1)
    else if leb 0xC2 b0 && leb b0 0xDF
    then sequence src offset 2 (bit_and b0 0x1F)
    else if leb 0xE0 b0 && leb b0 0xEF
    then sequence src offset 3 (bit_and b0 0x0F)
    else if leb 0xF0 b0 && leb b0 0xF4
    then sequence src offset 4 (bit_and b0 0x07)
    else (replacement, offset + 1)

unfoldable pub utf8_peek_codepoint : List ℕ → ℕ → ℕ
utf8_peek_codepoint src offset = (utf8_next_codepoint src offset).0

unfoldable pub utf8_is_well_formed_at : List ℕ → ℕ → Bool
utf8_is_well_formed_at src offset =
    let (cp, next) = utf8_next_codepoint src offset in not (cp == 0xFFFD) || next - offset == 3

-- The walk back over continuation bytes, from `lead`; it takes three steps at most.
unfoldable pub walk_back : ℕ → List ℕ → ℕ → ℕ
walk_back zero src lead = lead
walk_back (suc steps) src lead =
    let rest = walk_back steps src (lead - 1) in
    if ltb 0 lead && bit_and (byte src (lead - 1)) 0xC0 == 0x80 then rest else lead

unfoldable pub utf8_complete_prefix : List ℕ → ℕ
utf8_complete_prefix src =
    let len = length src in
    let lead = walk_back 3 src len in
    if lead == 0
    then len
    else let lead = lead - 1 in
      let b0 = byte src lead in
      let needed =
        if leb 0xF0 b0 then 4 else if leb 0xE0 b0 then 3 else if leb 0xC0 b0 then 2 else 1 in
      if ltb (len - lead) needed then lead else len
