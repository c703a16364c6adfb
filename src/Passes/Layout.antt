-- ===== src/Passes/Layout.antt =====
-- The layout that both passes of src/passes follow: the section of a line, its size at an offset,
-- and the offsets behind it.
pub mod Walk
pub mod Lines
pub mod Quiet
pub mod Steps
pub mod Written
pub mod Rounds
pub mod Accepted
pub mod Agreement
pub mod Program
use nazm.Prelude.{
  ℕ, zero, suc, ◌+◌, ◌*◌, ◌%◌, ◌^◌, ◌≤◌, ◌<◌, ◌≡◌, refl, ap, Bool, true, false, ◌||◌, not, List, [],
  ◌∷◌, if◌then◌else◌, length, arith,
}
use nazm.Symtable.{SymbolSection}
use nazm.Passes.Instruction.{DirectiveKind, Instruction}
use nazm.Passes.Offsets.{
  Offsets, pass1_section_offset, set_offset, add_size_exact, advance, is_section,
}
use nazm.Passes.First.{laid_size, opcode_is_invalid}
use nazm.Passes.Sizes.{data_bytes}

-- The size of an instruction in its section.
abbrev pub code_size : Instruction → SymbolSection → ℕ
code_size i section =
    if opcode_is_invalid i.opcode || not (is_section section SymbolSection.text)
    then 0
    else laid_size i.opcode i.ops

-- The size of a line of the given kind, in its section at an offset.
abbrev pub line_size : DirectiveKind → Instruction → SymbolSection → ℕ → ℕ
line_size DirectiveKind.none i section offset = code_size i section
line_size kind i section offset = length (data_bytes kind i.ops offset)

abbrev pub grow : SymbolSection → ℕ → Offsets → Offsets
grow section n o = set_offset section (pass1_section_offset section o + n) o

-- Every offset has `n` bytes left below 2 ^ 63.
abbrev pub HasRoom : ℕ → Offsets → Type 0
HasRoom n o =
    (o.text + n < 2 ^ 63)
    × (o.data_section + n < 2 ^ 63)
    × (o.read_only_data + n < 2 ^ 63)
    × (o.bss + n < 2 ^ 63)

abbrev pub Fits : Offsets → Offsets → Type 0
Fits o caps =
    (o.text ≤ caps.text)
    × (o.data_section ≤ caps.data_section)
    × (o.read_only_data ≤ caps.read_only_data)
    × (o.bss ≤ caps.bss)

plus_zero : (n : ℕ) → n + 0 ≡ n
plus_zero n = omega arith

pub grow_nothing : (section : SymbolSection) (o : Offsets) → grow section 0 o ≡ o
grow_nothing SymbolSection.text o = ap (λ (n : ℕ). record o { text = n }) (plus_zero o.text)
grow_nothing SymbolSection.data_section o =
    ap (λ (n : ℕ). record o { data_section = n }) (plus_zero o.data_section)
grow_nothing SymbolSection.read_only_data o =
    ap (λ (n : ℕ). record o { read_only_data = n }) (plus_zero o.read_only_data)
grow_nothing SymbolSection.bss o = ap (λ (n : ℕ). record o { bss = n }) (plus_zero o.bss)
grow_nothing SymbolSection.unknown o = refl

pub grow-HasRoom :
    (section : SymbolSection) (n left : ℕ) (o : Offsets)
    → n < 2 ^ 31
    → HasRoom (suc left * 2 ^ 31) o
    → HasRoom (left * 2 ^ 31) (grow section n o)
grow-HasRoom SymbolSection.text n left o h room = ground arith
grow-HasRoom SymbolSection.data_section n left o h room = ground arith
grow-HasRoom SymbolSection.read_only_data n left o h room = ground arith
grow-HasRoom SymbolSection.bss n left o h room = ground arith
grow-HasRoom SymbolSection.unknown n left o h room = ground arith

pub Fits-grow : (section : SymbolSection) (n : ℕ) (o : Offsets) → Fits o (grow section n o)
Fits-grow SymbolSection.text n o = ground arith
Fits-grow SymbolSection.data_section n o = ground arith
Fits-grow SymbolSection.read_only_data n o = ground arith
Fits-grow SymbolSection.bss n o = ground arith
Fits-grow SymbolSection.unknown n o = ground arith

pub Fits-trans : (a b c : Offsets) → Fits a b → Fits b c → Fits a c
Fits-trans a b c h k = ground arith

-- With room, the addition of `size_t` is exact.
pub advance-grow :
    (section : SymbolSection) (n left : ℕ) (o : Offsets)
    → n < 2 ^ 31
    → HasRoom (suc left * 2 ^ 31) o
    → advance section n o ≡ grow section n o
advance-grow SymbolSection.text n left o h room =
    ap (λ (t : ℕ). record o { text = t }) (add_size_exact o.text n (ground arith))
advance-grow SymbolSection.data_section n left o h room =
    ap (λ (t : ℕ). record o { data_section = t }) (add_size_exact o.data_section n (ground arith))
advance-grow SymbolSection.read_only_data n left o h room =
    ap (λ (t : ℕ). record o { read_only_data = t })
      (add_size_exact o.read_only_data n (ground arith))
advance-grow SymbolSection.bss n left o h room =
    ap (λ (t : ℕ). record o { bss = t }) (add_size_exact o.bss n (ground arith))
advance-grow SymbolSection.unknown n left o h room = refl
