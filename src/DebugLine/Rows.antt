-- ===== src/DebugLine/Rows.antt =====
-- What the line-number program of output/debug_line.c means: a reader of the opcodes and the state machine
-- that the DWARF standard defines, and the rows that it gives for the program.
use nazm.Prelude.{
  ℕ, suc, ◌+◌, ◌^◌, ◌<◌, ◌≤◌, ◌≡◌, refl, ap, subst, ◌&&◌, List, [], ◌∷◌, ◌++◌, Option, none, some,
  append_assoc, Bool-cases, inl, inr, ltb, ◌==◌, ==_iff, if◌then◌else◌, length, ℤ, pos, ◌-ℤ◌, eq_ℤ,
  arith,
}
use nazm.Passes.Debug.{DebugFile}
use nazm.Passes.Output.{DebugLine}
use nazm.DebugLine.Leb.{
  debug_buffer_uleb, read_uleb, read_sleb, read_uleb-debug_buffer_uleb, read_sleb-debug_buffer_sleb,
}
use nazm.DebugLine.Program.{
  find_from, Current, sub_u64, set_file, set_column, advance_line, advance_pc, line_bytes,
  after_line, program_end,
}

pub data Op : Type 0 where
  copy end_sequence : Op
  advance_address set_file_register set_column_register : ℕ → Op
  add_to_line : ℤ → Op

abbrev operand_to : (ℕ → Op) → Option (ℕ × List ℕ) → Option (Op × List ℕ)
operand_to make none = none
operand_to make (some (n, rest)) = some (make n, rest)

abbrev line_to : Option (ℤ × List ℕ) → Option (Op × List ℕ)
line_to none = none
line_to (some (v, rest)) = some (add_to_line v, rest)

-- Of the extended opcodes, the end of the sequence.
abbrev read_extended : Option (ℕ × List ℕ) → Option (Op × List ℕ)
read_extended none = none
read_extended (some (len, [])) = none
read_extended (some (len, op ∷ rest)) =
    if (len == 1) && (op == 1) then some (end_sequence, rest) else none

unfoldable pub read_op : List ℕ → Option (Op × List ℕ)
read_op [] = none
read_op (b ∷ rest) =
    if b == 0
    then read_extended (read_uleb rest)
    else if b == 1
    then some (copy, rest)
    else if b == 2
    then operand_to advance_address (read_uleb rest)
    else if b == 3
    then line_to (read_sleb rest)
    else if b == 4
    then operand_to set_file_register (read_uleb rest)
    else if b == 5
    then operand_to set_column_register (read_uleb rest)
    else none

abbrev pub plus : ℤ → ℤ → ℤ
plus a b = a -ℤ (pos 0 -ℤ b)

abbrev pub apply_op : Op → Current → Option Current
apply_op (advance_address n) c = some (record c { address = c.address + n })
apply_op (set_file_register n) c = some (record c { file = n })
apply_op (set_column_register n) c = some (record c { column = n })
apply_op (add_to_line v) c = some (record c { line = plus c.line v })
apply_op _ c = none

-- From the registers, the bytes give the rows, and the sequence ends at an address.
pub data Runs : Current → List ℕ → List Current → ℕ → Type 0 where
  ends :
      {c : Current} {bytes rest : List ℕ}
      → read_op bytes ≡ some (end_sequence, rest)
      → Runs c bytes [] c.address
  copies :
      {c : Current} {bytes rest : List ℕ} {rows : List Current} {end : ℕ}
      → read_op bytes ≡ some (copy, rest)
      → Runs c rest rows end
      → Runs c bytes (c ∷ rows) end
  applies :
      {c next : Current} {bytes rest : List ℕ} {rows : List Current} {end : ℕ} {op : Op}
      → read_op bytes ≡ some (op, rest)
      → apply_op op c ≡ some next
      → Runs next rest rows end
      → Runs c bytes rows end

-- The rows that the lines stand for; a file that is not found has no row.
abbrev pub row_of : List DebugFile → DebugLine → Option Current
row_of files l = elim (find_from 0 files l.file_id) [
  | none ↦ none
  | some index ↦ some (after_line (suc index) l)
]

module _ (rest : List ℕ) (rows : List Current) (end : ℕ) (c : Current) where
  file-Runs :
      (file : ℕ)
      → file < 2 ^ 32
      → Runs (record c { file = file }) rest rows end
      → Runs c (set_file c.file file ++ rest) rows end
  unfolding read_op
  file-Runs file small r = elim (Bool-cases (file == c.file)) [
    | inl e ↦
        let same = (==_iff file c.file).0 e in
        rw e (subst (λ (n : ℕ). Runs (record c { file = n }) rest rows end) same r)
    | inr e ↦
        let read = read_uleb-debug_buffer_uleb file rest (omega arith) in
        rw e (applies (ap (operand_to set_file_register) read) refl r)
  ]

  column-Runs :
      (column : ℕ)
      → column < 2 ^ 32
      → Runs (record c { column = column }) rest rows end
      → Runs c (set_column c.column column ++ rest) rows end
  unfolding read_op
  column-Runs column small r = elim (Bool-cases (column == c.column)) [
    | inl e ↦
        let same = (==_iff column c.column).0 e in
        rw e (subst (λ (n : ℕ). Runs (record c { column = n }) rest rows end) same r)
    | inr e ↦
        let read = read_uleb-debug_buffer_uleb column rest (omega arith) in
        rw e (applies (ap (operand_to set_column_register) read) refl r)
  ]

  pc-Runs :
      (offset : ℕ)
      → offset < 2 ^ 64
      → c.address ≤ offset
      → Runs (record c { address = offset }) rest rows end
      → Runs c (advance_pc c.address offset ++ rest) rows end
  unfolding read_op
  pc-Runs offset small sorted r = elim (Bool-cases (offset == c.address)) [
    | inl e ↦
        let same = (==_iff offset c.address).0 e in
        rw e (subst (λ (n : ℕ). Runs (record c { address = n }) rest rows end) same r)
    | inr e ↦
        let amount = sub_u64 offset c.address in
        let read = read_uleb-debug_buffer_uleb amount rest (omega arith) in
        let sum : c.address + amount ≡ offset = omega arith in
        rw e (
          applies (ap (operand_to advance_address) read)
            (ap (λ (n : ℕ). some (record c { address = n })) sum) r)
  ]

  line-Runs :
      (line old : ℕ)
      → line < 2 ^ 32
      → old < 2 ^ 32
      → c.line ≡ pos old
      → Runs (record c { line = pos line }) rest rows end
      → Runs c (advance_line c.line line ++ rest) rows end
  unfolding read_op
  line-Runs line old small past here r = elim (Bool-cases (eq_ℤ (pos line) c.line)) [
    | inl e ↦
        let same : pos line ≡ c.line = ground arith in
        rw e (subst (λ (n : ℤ). Runs (record c { line = n }) rest rows end) same r)
    | inr e ↦
        let read = read_sleb-debug_buffer_sleb (pos line -ℤ c.line) rest (ground arith) in
        let sum : plus c.line (pos line -ℤ c.line) ≡ pos line = ground arith in
        rw e (applies (ap line_to read) (ap (λ (n : ℤ). some (record c { line = n })) sum) r)
  ]

-- The fields of a line are `uint32_t`.
abbrev pub AllFields : List DebugLine → Type 0
AllFields [] = Unit
AllFields (l ∷ ls) = ((l.line < 2 ^ 32) × (l.column < 2 ^ 32)) × AllFields ls

pub line_bytes-Runs :
    (rest : List ℕ) (rows : List Current) (end file old : ℕ) (l : DebugLine) (c : Current)
    → file < 2 ^ 32
    → (l.line < 2 ^ 32) × (l.column < 2 ^ 32)
    → old < 2 ^ 32
    → c.line ≡ pos old
    → c.address ≤ l.offset
    → l.offset < 2 ^ 64
    → Runs (after_line file l) rest rows end
    → Runs c (line_bytes file l c ++ rest) (after_line file l ∷ rows) end
unfolding read_op
line_bytes-Runs rest rows end file old l c small (short, narrow) past here sorted inside r =
    let all = after_line file l ∷ rows in
    let copied : Runs (after_line file l) (1 ∷ rest) all end = copies refl r in
    let pc = advance_pc c.address l.offset in
    let moved =
      pc-Runs (1 ∷ rest) all end (record (after_line file l) { address = c.address }) l.offset
        inside sorted copied in
    let line = advance_line c.line l.line in
    let lined =
      line-Runs (pc ++ (1 ∷ rest)) all end (record c { file = file; column = l.column }) l.line old
        short past here moved in
    let column = set_column c.column l.column in
    let placed =
      column-Runs (line ++ (pc ++ (1 ∷ rest))) all end (record c { file = file }) l.column narrow
        lined in
    let filed = file-Runs (column ++ (line ++ (pc ++ (1 ∷ rest)))) all end c file small placed in
    let first = append_assoc (set_file c.file file) (column ++ (line ++ (pc ++ (1 ∷ [])))) rest in
    let second = append_assoc column (line ++ (pc ++ (1 ∷ []))) rest in
    let third = append_assoc line (pc ++ (1 ∷ [])) rest in
    let fourth = append_assoc pc (1 ∷ []) rest in rw (first, second, third, fourth) filed

pub end-Runs :
    (text_size : ℕ) (c : Current)
    → c.address ≤ text_size
    → text_size < 2 ^ 64
    → Runs c (program_end text_size c) [] text_size
unfolding read_op
end-Runs text_size c inside small =
    let tail = 0 ∷ debug_buffer_uleb 1 ++ (1 ∷ []) in
    let ended : read_op tail ≡ some (end_sequence, []) =
      ap read_extended (read_uleb-debug_buffer_uleb 1 (1 ∷ []) (omega arith)) in
    elim (Bool-cases (ltb c.address text_size)) [
      | inl e ↦
          let amount = sub_u64 text_size c.address in
          let read = read_uleb-debug_buffer_uleb amount tail (omega arith) in
          let sum : c.address + amount ≡ text_size = ground arith in
          rw e (
            applies (ap (operand_to advance_address) read)
              (ap (λ (n : ℕ). some (record c { address = n })) sum) (ends ended))
      | inr e ↦
          let same : c.address ≡ text_size = ground arith in
          rw e (subst (Runs c tail []) same (ends ended))
    ]

pub find_from-bounds :
    (i : ℕ) (files : List DebugFile) (id k : ℕ)
    → find_from i files id ≡ some k
    → k < i + length files
unfolding find_from
find_from-bounds i [] id k h = absurd (ground arith)
find_from-bounds i (f ∷ fs) id k h = elim (Bool-cases (f.id == id)) [
  | inl e ↦ let found : some i ≡ some k = rw e at h in ground arith
  | inr e ↦ let later = find_from-bounds (i + 1) fs id k (rw e at h) in omega arith
]
