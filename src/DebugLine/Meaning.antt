-- ===== src/DebugLine/Meaning.antt =====
-- The line-number program of output/debug_line.c as a whole: its rows are the lines.
use nazm.Prelude.{
  ℕ, suc, ◌^◌, ◌<◌, ◌≤◌, ◌≡◌, refl, true, false, ◌||◌, not, List, [], ◌∷◌, ◌++◌, Option, none, some,
  Bool-cases, inl, inr, ltb, ◌==◌, length, pos, arith,
}
use nazm.Passes.Debug.{DebugFile}
use nazm.Passes.Output.{DebugLine}
use nazm.DebugLine.Program.{
  find_from, is_found, lines_valid, debug_contract_is_valid, Current, start, after_line, line_bytes,
  dwarf_file_of, program_end, line_program,
}
use nazm.DebugLine.Rows.{Runs, AllFields, line_bytes-Runs, end-Runs, find_from-bounds}

-- A row for every line, with the number of its file in the table, from 1 on.
abbrev pub rows_of : List DebugFile → List DebugLine → List Current
rows_of files [] = []
rows_of files (l ∷ ls) = elim (find_from 0 files l.file_id) [
  | none ↦ rows_of files ls
  | some index ↦ after_line (suc index) l ∷ rows_of files ls
]

-- What the contract says of a line.
record Valid (files : List DebugFile) (text_size last : ℕ) (l : DebugLine) : Type 0 where
  index : ℕ
  found : find_from 0 files l.file_id ≡ some index
  inside : l.offset ≤ text_size
  sorted : last ≤ l.offset

found-index : (found : Option ℕ) → is_found found ≡ true → (index : ℕ) × (found ≡ some index)
found-index none h = absurd (ground arith)
found-index (some index) h = (index, refl)

module _ (files : List DebugFile) (text_size : ℕ) where
  lines_valid-parts :
      (last : ℕ) (l : DebugLine) (ls : List DebugLine)
      → lines_valid files text_size last (l ∷ ls) ≡ true
      → Valid files text_size last l × (lines_valid files text_size l.offset ls ≡ true)
  unfolding lines_valid
  lines_valid-parts last l ls h =
      let found = is_found (find_from 0 files l.file_id) in
      elim (Bool-cases (ltb text_size l.offset || ltb l.offset last || l.line == 0 || not found)) [
        | inl e ↦ let refused : false ≡ true = rw e at h in absurd (ground arith)
        | inr e ↦
            let there : found ≡ true = ground arith in
            let (index, at_index) = found-index (find_from 0 files l.file_id) there in
            (
              record {
                index = index;
                found = at_index;
                inside = ground arith;
                sorted = ground arith;
              },
              rw e at h,
            )
      ]

  module _ (small : text_size < 2 ^ 64) (few : length files < 2 ^ 32) where
    loop-Runs :
        (lines : List DebugLine) (c : Current) (old : ℕ)
        → AllFields lines
        → lines_valid files text_size c.address lines ≡ true
        → c.address ≤ text_size
        → c.line ≡ pos old
        → old < 2 ^ 32
        → (program : List ℕ) × (line_program files text_size lines c ≡ some program)
          × Runs c program (rows_of files lines) text_size
    unfolding line_program
    loop-Runs [] c old fields h below here past =
        (program_end text_size c, refl, end-Runs text_size c below small)
    loop-Runs (l ∷ ls) c old (f, fs) h below here past =
        let (valid, h') = lines_valid-parts c.address l ls h in
        let bound = find_from-bounds 0 files l.file_id valid.index valid.found in
        let file : dwarf_file_of valid.index ≡ suc valid.index = omega arith in
        let next = after_line (suc valid.index) l in
        let (rest, made, runs) = loop-Runs ls next l.line fs h' valid.inside refl f.0 in
        let bytes = line_bytes (suc valid.index) l c in
        (
          bytes ++ rest,
          rw (line_program, valid.found, file, made) refl,
          rw (rows_of, valid.found)
              (line_bytes-Runs rest (rows_of files ls) text_size (suc valid.index) old l c
                (omega arith) f past here valid.sorted (let inside = valid.inside in omega arith)
                runs),
        )

-- Take files and lines that meet the contract of the writer, with fewer than 2 ^ 32 files, where the
-- line numbers and columns are uint32_t and the size of the text is a size_t. The line-number program
-- is written; and the state machine of the DWARF standard, which reads it from its initial registers
-- on, gives one row for each line in their order, with its offset, line, column and the number of its
-- file, and ends the sequence at the end of the text.
pub line_program-Runs :
    (files : List DebugFile) (lines : List DebugLine) (text_size : ℕ)
    → debug_contract_is_valid files lines text_size ≡ true
    → length files < 2 ^ 32
    → AllFields lines
    → text_size < 2 ^ 64
    → (program : List ℕ) × (line_program files text_size lines start ≡ some program)
      × Runs start program (rows_of files lines) text_size
unfolding debug_contract_is_valid
line_program-Runs files lines text_size valid few fields small =
    let checked : lines_valid files text_size 0 lines ≡ true = ground arith in
    loop-Runs files text_size small few lines start 1 fields checked (omega arith) refl
      (omega arith)
