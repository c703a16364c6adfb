-- ===== src/Passes/Output.antt =====
-- The output of passes/pass2.c as it grows: the section buffers, the emission spans, the line records,
-- the relocations and the errors. A list that the code pushes to has its last entry first.
use nazm.Prelude.{ℕ, List, [], ◌∷◌, length}
use nazm.Symtable.{SymbolSection}
use nazm.Passes.Instruction.{DirectiveKind, Instruction}
use nazm.Passes.Offsets.{Offsets}
use nazm.Passes.Resolve.{RelocationSection, Relocation, Pass2Error}

pub record EmissionSpan : Type 0 where
  pub section : SymbolSection
  pub offset : ℕ
  pub size : ℕ

pub record DebugLine : Type 0 where
  pub offset : ℕ
  pub file_id : ℕ
  pub line : ℕ
  pub column : ℕ

-- The result, without the emissions, and the local variables. A size is the length of its bytes.
pub record Pass2State : Type 0 where
  pub text_bytes : List ℕ
  pub data_bytes : List ℕ
  pub read_only_data_bytes : List ℕ
  pub bss_size : ℕ
  pub current_section : SymbolSection
  pub debug_file : ℕ
  pub debug_line : ℕ
  pub debug_column : ℕ
  pub debug_lines : List DebugLine
  pub relocations : List Relocation
  pub errors : List Pass2Error

unfoldable pub pass2_start : Pass2State
pass2_start = record {
  text_bytes = [];
  data_bytes = [];
  read_only_data_bytes = [];
  bss_size = 0;
  current_section = SymbolSection.text;
  debug_file = 0;
  debug_line = 0;
  debug_column = 0;
  debug_lines = [];
  relocations = [];
  errors = [];
}

abbrev pub pass2_section_size : SymbolSection → Pass2State → ℕ
pass2_section_size SymbolSection.text st = length st.text_bytes
pass2_section_size SymbolSection.data_section st = length st.data_bytes
pass2_section_size SymbolSection.read_only_data st = length st.read_only_data_bytes
pass2_section_size SymbolSection.bss st = st.bss_size
pass2_section_size SymbolSection.unknown st = 0

-- The bytes of the two data sections, and the store of more of them.
abbrev pub pass2_section_bytes : SymbolSection → Pass2State → List ℕ
pass2_section_bytes SymbolSection.data_section st = st.data_bytes
pass2_section_bytes SymbolSection.read_only_data st = st.read_only_data_bytes
pass2_section_bytes _ st = []

abbrev pub set_section_bytes : SymbolSection → List ℕ → Pass2State → Pass2State
set_section_bytes SymbolSection.data_section bytes st = record st { data_bytes = bytes }
set_section_bytes SymbolSection.read_only_data bytes st = record st { read_only_data_bytes = bytes }
set_section_bytes _ bytes st = st

abbrev pub pass2_section_capacity : Offsets → SymbolSection → ℕ
pass2_section_capacity caps SymbolSection.data_section = caps.data_section
pass2_section_capacity caps SymbolSection.read_only_data = caps.read_only_data
pass2_section_capacity caps _ = 0

abbrev pub pass2_relocation_section : SymbolSection → RelocationSection
pass2_relocation_section SymbolSection.read_only_data = RelocationSection.read_only_data
pass2_relocation_section _ = RelocationSection.data_section

-- The section and the offset that the emission of an instruction starts with.
abbrev pub emission_section : DirectiveKind → SymbolSection → SymbolSection
emission_section DirectiveKind.text section = SymbolSection.text
emission_section DirectiveKind.data_section section = SymbolSection.data_section
emission_section DirectiveKind.read_only_data section = SymbolSection.read_only_data
emission_section DirectiveKind.bss section = SymbolSection.bss
emission_section kind section = section

abbrev pub emission_of : Instruction → Pass2State → ℕ → EmissionSpan
emission_of i st size =
    let section = emission_section i.directive_kind st.current_section in
    record { section = section; offset = pass2_section_size section st; size = size }

-- The memory of the emissions that an early return leaves.
abbrev pub blank_emissions : List Instruction → List EmissionSpan
blank_emissions [] = []
blank_emissions (i ∷ is) =
    record { section = SymbolSection.unknown; offset = 0; size = 0 } ∷ blank_emissions is

-- The end of a round: on to the next instruction, or the early return, with the emission's size.
pub data Flow : Type 0 where
  go stop : ℕ → Pass2State → Flow

abbrev pub add_internal_error : Pass2Error → ℕ → Pass2State → Flow
add_internal_error e size st = stop size (record st { errors = e ∷ st.errors })
