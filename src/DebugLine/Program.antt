-- ===== src/DebugLine/Program.antt =====
-- The contract of output/debug_line.c, and the line-number program and the section that
-- `output_build_dwarf_line` writes. Pointers are not null; a path ends before its NUL.
use nazm.Prelude.{
  ℕ, zero, suc, ◌+◌, ◌-◌, ◌*◌, ◌/◌, ◌%◌, ◌^◌, Bool, true, false, ◌&&◌, ◌||◌, not, List, [], ◌∷◌,
  ◌++◌, Option, none, some, ltb, ◌==◌, if◌then◌else◌, length, drop, ℤ, pos, eq_ℤ, ◌-ℤ◌,
}
use nazm.Passes.Debug.{DebugFile}
use nazm.Passes.Output.{DebugLine}
use nazm.DebugLine.Leb.{debug_buffer_uleb, debug_buffer_sleb}

unfoldable pub debug_buffer_u16 : ℕ → List ℕ
debug_buffer_u16 value = value % 2 ^ 8 ∷ value / 2 ^ 8 % 2 ^ 8 ∷ []

unfoldable pub debug_buffer_u32 : ℕ → List ℕ
debug_buffer_u32 value =
    value % 2 ^ 8 ∷ value / 2 ^ 8 % 2 ^ 8 ∷ value / 2 ^ 16 % 2 ^ 8 ∷ value / 2 ^ 24 % 2 ^ 8 ∷ []

-- The loop of `debug_buffer_u64`, from byte `i` on.
unfoldable pub debug_buffer_u64 : ℕ → ℕ → ℕ → List ℕ
debug_buffer_u64 zero i value = []
debug_buffer_u64 (suc rounds) i value =
    value / 2 ^ (i * 8) % 2 ^ 8 ∷ debug_buffer_u64 rounds (i + 1) value

-- Four bytes at `offset` are replaced.
unfoldable pub debug_buffer_patch_u32 : List ℕ → ℕ → ℕ → List ℕ
unfolding debug_buffer_u32
debug_buffer_patch_u32 buffer zero value = debug_buffer_u32 value ++ drop 4 buffer
debug_buffer_patch_u32 [] (suc offset) value = []
debug_buffer_patch_u32 (b ∷ buffer) (suc offset) value =
    b ∷ debug_buffer_patch_u32 buffer offset value

-- `*out_index`, from the index `i` on.
unfoldable pub find_from : ℕ → List DebugFile → ℕ → Option ℕ
find_from i [] id = none
find_from i (f ∷ fs) id = let rest = find_from (i + 1) fs id in if f.id == id then some i else rest

abbrev pub is_found : Option ℕ → Bool
is_found none = false
is_found (some i) = true

-- The loop of `debug_contract_is_valid`; `last_offset` is 0 at first, so that the test of `i > 0` is
-- not needed.
unfoldable pub lines_valid : List DebugFile → ℕ → ℕ → List DebugLine → Bool
unfolding find_from
lines_valid files text_size last_offset [] = true
lines_valid files text_size last_offset (l ∷ ls) =
    let rest = lines_valid files text_size l.offset ls in
    if ltb text_size l.offset
      || ltb l.offset last_offset
      || l.line == 0
      || not (is_found (find_from 0 files l.file_id))
    then false
    else rest

unfoldable pub debug_contract_is_valid : List DebugFile → List DebugLine → ℕ → Bool
unfolding lines_valid
debug_contract_is_valid files lines text_size =
    not (length files == 0) && not (length lines == 0) && lines_valid files text_size 0 lines

-- The local variables of the loop.
pub record Current : Type 0 where
  pub address : ℕ
  pub line : ℤ
  pub file : ℕ
  pub column : ℕ

abbrev pub start : Current
start = record { address = 0; line = pos 1; file = 1; column = 0 }

-- The difference of two `uint64_t`.
abbrev pub sub_u64 : ℕ → ℕ → ℕ
sub_u64 a b = (a + 2 ^ 64 - b) % 2 ^ 64

abbrev pub set_file : ℕ → ℕ → List ℕ
set_file current file = if file == current then [] else 4 ∷ debug_buffer_uleb file

abbrev pub set_column : ℕ → ℕ → List ℕ
set_column current column = if column == current then [] else 5 ∷ debug_buffer_uleb column

abbrev pub advance_line : ℤ → ℕ → List ℕ
advance_line current line =
    if eq_ℤ (pos line) current then [] else 3 ∷ debug_buffer_sleb (pos line -ℤ current)

abbrev pub advance_pc : ℕ → ℕ → List ℕ
advance_pc current offset =
    if offset == current then [] else 2 ∷ debug_buffer_uleb (sub_u64 offset current)

-- The bytes of a line whose file has the number `dwarf_file`.
abbrev pub line_bytes : ℕ → DebugLine → Current → List ℕ
line_bytes dwarf_file l c =
    set_file c.file dwarf_file
    ++ (set_column c.column l.column
        ++ (advance_line c.line l.line ++ (advance_pc c.address l.offset ++ (1 ∷ []))))

-- An assignment under a test of inequality leaves the new value in either case.
abbrev pub after_line : ℕ → DebugLine → Current
after_line dwarf_file l = record {
  address = l.offset;
  line = pos l.line;
  file = dwarf_file;
  column = l.column;
}

-- `dwarf_file`.
abbrev pub dwarf_file_of : ℕ → ℕ
dwarf_file_of index = (index + 1) % 2 ^ 32

abbrev pub prepend : List ℕ → Option (List ℕ) → Option (List ℕ)
prepend bytes none = none
prepend bytes (some rest) = some (bytes ++ rest)

-- What is written behind the loop.
abbrev pub program_end : ℕ → Current → List ℕ
program_end text_size c =
    (if ltb c.address text_size then 2 ∷ debug_buffer_uleb (sub_u64 text_size c.address) else [])
    ++ (0 ∷ debug_buffer_uleb 1 ++ (1 ∷ []))

-- From the loop on: `none` where a file is missing.
unfoldable pub line_program : List DebugFile → ℕ → List DebugLine → Current → Option (List ℕ)
unfolding find_from
line_program files text_size [] c = some (program_end text_size c)
line_program files text_size (l ∷ ls) c = elim (find_from 0 files l.file_id) [
  | none ↦ none
  | some index ↦
      let file = dwarf_file_of index in
      prepend (line_bytes file l c) (line_program files text_size ls (after_line file l))
]

-- The loop over the files.
unfoldable pub file_entries : List DebugFile → List ℕ
file_entries [] = []
file_entries (f ∷ fs) =
    f.path
    ++ (0 ∷ debug_buffer_uleb 0
        ++ (debug_buffer_uleb 0 ++ (debug_buffer_uleb 0 ++ file_entries fs)))

-- The header before its lengths are known.
unfoldable pub dwarf_header : List DebugFile → List ℕ
unfolding debug_buffer_u16 debug_buffer_u32 file_entries
dwarf_header files =
    debug_buffer_u32 0
    ++ (debug_buffer_u16 4
        ++ (debug_buffer_u32 0
            ++ (1
                ∷ 1
                ∷ 1
                ∷ 0xFB
                ∷ 14
                ∷ 13
                ∷ 0
                ∷ 1
                ∷ 1
                ∷ 1
                ∷ 1
                ∷ 0
                ∷ 0
                ∷ 0
                ∷ 1
                ∷ 0
                ∷ 0
                ∷ 1
                ∷ 0
                ∷ (file_entries files ++ (0 ∷ [])))))

pub data DwarfLineSection : Type 0 where
  invalid_contract too_many_files file_missing too_large : DwarfLineSection
  built : List ℕ → ℕ → DwarfLineSection

-- From the relocation's offset on.
unfoldable pub finish : List ℕ → Option (List ℕ) → DwarfLineSection
unfolding debug_buffer_u64 debug_buffer_patch_u32
finish out none = DwarfLineSection.file_missing
finish out (some program) =
    let whole = out ++ (debug_buffer_u64 8 0 0 ++ program) in
    if ltb 0xffff_ffff (length whole - 4)
    then DwarfLineSection.too_large
    else DwarfLineSection.built (debug_buffer_patch_u32 whole 0 ((length whole - 4) % 2 ^ 32))
        (length out)

unfoldable pub output_build_dwarf_line : List DebugFile → List DebugLine → ℕ → DwarfLineSection
unfolding debug_contract_is_valid debug_buffer_patch_u32 dwarf_header
output_build_dwarf_line files lines text_size =
    let header = dwarf_header files in
    let patched = debug_buffer_patch_u32 header 6 ((length header - 10) % 2 ^ 32) in
    if not (debug_contract_is_valid files lines text_size)
    then DwarfLineSection.invalid_contract
    else if ltb 0xffff_ffff (length files)
    then DwarfLineSection.too_many_files
    else finish (patched ++ (0 ∷ debug_buffer_uleb 9 ++ (2 ∷ [])))
        (line_program files text_size lines start)
