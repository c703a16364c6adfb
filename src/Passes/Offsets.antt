-- ===== src/Passes/Offsets.antt =====
-- The sizes and the alignments of the sections, as passes/pass1.c counts them. A pointer to a
-- section's offset is the section itself, which is read and advanced; it is never `unknown`, where
-- the code has no offset.
use nazm.Prelude.{
  ℕ, ◌+◌, ◌%◌, ◌^◌, ◌<◌, ◌≡◌, arith, Bool, true, false, ◌&&◌, List, [], ◌∷◌, ltb, if◌then◌else◌, ℤ,
  pos, pos_part, ltb_ℤ, to_unsigned,
}
use nazm.Encoder.Operands.{Operand, imm}
use nazm.Symtable.{SymbolSection}
use nazm.Passes.Instruction.{DirectiveKind}

-- One number for each section.
pub record Offsets : Type 0 where
  pub text : ℕ
  pub data_section : ℕ
  pub read_only_data : ℕ
  pub bss : ℕ

-- The read through the pointer that the code gives for a section.
abbrev pub pass1_section_offset : SymbolSection → Offsets → ℕ
pass1_section_offset SymbolSection.text o = o.text
pass1_section_offset SymbolSection.data_section o = o.data_section
pass1_section_offset SymbolSection.read_only_data o = o.read_only_data
pass1_section_offset SymbolSection.bss o = o.bss
pass1_section_offset SymbolSection.unknown o = 0

-- The store through it.
abbrev pub set_offset : SymbolSection → ℕ → Offsets → Offsets
set_offset SymbolSection.text n o = record o { text = n }
set_offset SymbolSection.data_section n o = record o { data_section = n }
set_offset SymbolSection.read_only_data n o = record o { read_only_data = n }
set_offset SymbolSection.bss n o = record o { bss = n }
set_offset SymbolSection.unknown n o = o

-- The addition of two `size_t`.
unfoldable pub add_size : ℕ → ℕ → ℕ
add_size a b = (a + b) % 2 ^ 64

pub add_size_exact : (a b : ℕ) → a + b < 2 ^ 64 → add_size a b ≡ a + b
unfolding add_size
add_size_exact a b h = omega arith

-- `*section_offset += amount`.
abbrev pub advance : SymbolSection → ℕ → Offsets → Offsets
advance section amount o = set_offset section (add_size (pass1_section_offset section o) amount) o

abbrev pub no_offsets : Offsets
no_offsets = record { text = 0; data_section = 0; read_only_data = 0; bss = 0 }

abbrev pub is_section : SymbolSection → SymbolSection → Bool
is_section SymbolSection.unknown SymbolSection.unknown = true
is_section SymbolSection.text SymbolSection.text = true
is_section SymbolSection.data_section SymbolSection.data_section = true
is_section SymbolSection.read_only_data SymbolSection.read_only_data = true
is_section SymbolSection.bss SymbolSection.bss = true
is_section _ _ = false

-- `if (dsz > 0)`.
abbrev pub advance_by : ℤ → SymbolSection → Offsets → Offsets
advance_by size section o = if ltb_ℤ (pos 0) size then advance section (pos_part size) o else o

abbrev pub note_larger : ℕ → ℕ → ℕ
note_larger boundary largest = if ltb largest boundary then boundary else largest

abbrev pub has_alignment : SymbolSection → Bool
has_alignment SymbolSection.text = false
has_alignment SymbolSection.unknown = false
has_alignment _ = true

unfoldable pub pass1_note_alignment :
    SymbolSection → DirectiveKind → List Operand → Offsets → Offsets
pass1_note_alignment section DirectiveKind.alignment (imm v ∷ []) largest =
    if ltb_ℤ (pos 0) v && has_alignment section
    then set_offset section (note_larger (to_unsigned 64 v) (pass1_section_offset section largest))
        largest
    else largest
pass1_note_alignment section kind ops largest = largest
