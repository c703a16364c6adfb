-- ===== src/DebugLine/Examples.antt =====
-- A line table of two lines, and the theorem of the line-number program on it.
use nazm.Prelude.{ℕ, ◌≡◌, refl, List, [], ◌∷◌, some, drop, arith}
use nazm.Passes.Debug.{DebugFile}
use nazm.Passes.Output.{DebugLine}
use nazm.DebugLine.Leb.{uleb_loop, sleb_loop, debug_buffer_uleb, debug_buffer_sleb}
use nazm.DebugLine.Program.{
  debug_buffer_u16, debug_buffer_u32, debug_buffer_u64, debug_buffer_patch_u32, find_from,
  lines_valid, debug_contract_is_valid, start, line_program, file_entries, dwarf_header,
  DwarfLineSection, finish, output_build_dwarf_line,
}
use nazm.DebugLine.Rows.{Runs}
use nazm.DebugLine.Meaning.{rows_of, line_program-Runs}

abbrev files : List DebugFile
files = record { id = 7; path = 65 ∷ [] } ∷ []

abbrev lines : List DebugLine
lines =
    record { offset = 0; file_id = 7; line = 4; column = 2 }
    ∷ record { offset = 200; file_id = 7; line = 3; column = 2 }
    ∷ []

section_of : DwarfLineSection → List ℕ
section_of (DwarfLineSection.built data_bytes relocation) = data_bytes
section_of _ = []

-- The bytes behind the file table.
program_bytes : List ℕ
unfolding section_of uleb_loop sleb_loop debug_buffer_uleb debug_buffer_sleb debug_buffer_u16
    debug_buffer_u32 debug_buffer_u64 debug_buffer_patch_u32 find_from lines_valid
    debug_contract_is_valid line_program file_entries dwarf_header finish output_build_dwarf_line
program_bytes = drop 35 (section_of (output_build_dwarf_line files lines 210))

program_bytes_lem : program_bytes ≡ (
    0 ∷ 9 ∷ 2 ∷ 0 ∷ 0 ∷ 0 ∷ 0 ∷ 0 ∷ 0 ∷ 0 ∷ 0 ∷ 5 ∷ 2 ∷ 3 ∷ 3 ∷ 1 ∷ 3 ∷ 0x7F ∷ 2 ∷ 0xC8 ∷ 1 ∷ 1 ∷ 2
    ∷ 10 ∷ 0 ∷ 1 ∷ 1 ∷ [])
unfolding program_bytes
program_bytes_lem = refl

line_program-Runs_example :
    (program : List ℕ) × (line_program files 210 lines start ≡ some program)
    × Runs start program (rows_of files lines) 210
unfolding program_bytes
line_program-Runs_example =
    line_program-Runs files lines 210 refl (omega arith)
      ((omega arith, omega arith), ((omega arith, omega arith), tt)) (omega arith)
