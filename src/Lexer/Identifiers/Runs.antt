-- ===== src/Lexer/Identifiers/Runs.antt =====
-- The scans of lexer/lexer.c end within their fuel, and pass all that continues a word and no more.
use mathlib.Core.Path.{fun_ext}
use nazm.Prelude.{
  ℕ, zero, suc, ◌+◌, ◌≤◌, ◌<◌, ◌≡◌, Bool, true, false, not, ◌||◌, List, length, Bool-cases, inl,
  inr, arith,
}
use nazm.Unicode.Utf8.{utf8_next_codepoint, utf8_peek_codepoint}
use nazm.Unicode.Utf8.Encoding.{IsBytes}
use nazm.Unicode.Utf8.WellFormed.{next_codepoint_progress}
use nazm.Unicode.Classes.{is_ident_continue}
use nazm.Lexer.Cursor.{Cursor, at_end, peek_cp, skip_cp}
use nazm.Lexer.Numbers.Digits.{skip_cp-position}
use nazm.Lexer.Identifiers.{scan_loop, scan, scan_ident, scan_directive, directive_continues}

-- From `start` up to `end` every code point passes the test, and none does at `end`.
pub data HoldsRun (src : List ℕ) (continues : ℕ → Bool) : ℕ → ℕ → Type 0 where
  source_ends : (start : ℕ) → length src ≤ start → HoldsRun src continues start start
  run_ends :
      (start : ℕ)
      → continues (utf8_peek_codepoint src start) ≡ false
      → HoldsRun src continues start start
  run_goes_on :
      (start end : ℕ)
      → start < length src
      → continues (utf8_peek_codepoint src start) ≡ true
      → HoldsRun src continues (utf8_next_codepoint src start).1 end
      → HoldsRun src continues start end

module _ (src : List ℕ) (bytes : IsBytes src) (continues : ℕ → Bool) where
  scan_stops :
      (c : Cursor)
      → at_end src c || not (continues (peek_cp src c)) ≡ true
      → HoldsRun src continues c.position c.position
  unfolding at_end peek_cp
  scan_stops c stop = elim (Bool-cases (at_end src c)) [
    | inl ended ↦ source_ends c.position (ground arith)
    | inr more ↦ run_ends c.position (ground arith)
  ]

  scan_goes_on :
      (c : Cursor)
      → at_end src c || not (continues (peek_cp src c)) ≡ false
      → (c.position < length src) × (continues (utf8_peek_codepoint src c.position) ≡ true)
  unfolding at_end peek_cp
  scan_goes_on c more = ground arith

  scan_loop-HoldsRun :
      (fuel : ℕ) (c : Cursor)
      → length src ≤ fuel + c.position
      → HoldsRun src continues c.position (scan_loop fuel src continues c).position
  unfolding scan_loop
  scan_loop-HoldsRun zero c enough = source_ends c.position (omega arith)
  scan_loop-HoldsRun (suc fuel) c enough =
      elim (Bool-cases (at_end src c || not (continues (peek_cp src c)))) [
        | inl stop ↦ rw stop (scan_stops c stop)
        | inr more ↦
            let (inside, passes) = scan_goes_on c more in
            let next = skip_cp src c in
            let moved = skip_cp-position src c in
            let progress = (next_codepoint_progress src c.position bytes inside).0 in
            let rest = scan_loop-HoldsRun fuel next (omega arith) in
            rw more (run_goes_on c.position _ inside passes (rw (← moved) rest))
      ]

  scan-HoldsRun : (c : Cursor) → HoldsRun src continues c.position (scan src continues c).position
  unfolding scan
  scan-HoldsRun c = scan_loop-HoldsRun _ c (omega arith)

same_classes : directive_continues ≡ is_ident_continue
unfolding directive_continues is_ident_continue
same_classes = fun_ext (λ cp. ground arith)

-- Over a source of bytes, the scan of an identifier ends where the run of code points that continue
-- one ends, and so does the scan of a directive from the same cursor.
pub scans-HoldsRun :
    (src : List ℕ) (c : Cursor)
    → IsBytes src
    → HoldsRun src is_ident_continue c.position (scan_ident src c).1.position
      × HoldsRun src is_ident_continue c.position (scan_directive src c).1.position
unfolding scan_ident scan_directive
scans-HoldsRun src c bytes = (
  scan-HoldsRun src bytes is_ident_continue c,
  rw same_classes (scan-HoldsRun src bytes is_ident_continue c),
)
