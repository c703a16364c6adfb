-- ===== src/Passes/Resolve.antt =====
-- The relocations, the errors and the resolution of operands in passes/pass2.c. A list that the code
-- pushes to has its last entry first. An error is the message with its names and numbers.
use nazm.Prelude.{
  ℕ, ◌+◌, ◌-◌, ◌*◌, Bool, true, false, ◌&&◌, ◌||◌, not, List, [], ◌∷◌, Option, none, some, ltb,
  ◌==◌, if◌then◌else◌, ℤ, pos, negsuc, ltb_ℤ, of_bits, ◌-ℤ◌,
}
use nazm.Encoder.Operands.{Operand, Text, reg}
use nazm.Encoder.Opcodes.{Opcode, mov, jmp, call, je, jne, jg, jge, jl, jle, jz, jnz, js, jns}
use nazm.Symtable.{SymbolSection, SymbolTable, symtable_lookup_ex, symtable_is_external}
use nazm.Passes.Offsets.{add_size, is_section}

pub data RelocationSection : Type 0 where
  text data_section read_only_data : RelocationSection

pub data RelocationKind : Type 0 where
  abs64 pc32 : RelocationKind

pub record Relocation : Type 0 where
  pub section : RelocationSection
  pub kind : RelocationKind
  pub offset : ℕ
  pub symbol : Text
  pub addend : ℤ

pub data Pass2Error : Type 0 where
  negative_size data_overflow text_overflow sizes_differ : Pass2Error
  data_size_differs : ℤ → ℕ → Pass2Error
  instruction_size_differs : ℕ → ℕ → Pass2Error
  rip_displacement_missing : Pass2Error
  data_symbol_unresolved rip_symbol_unresolved label_unresolved : Text → Pass2Error
  jump_outside_text jump_out_of_range : Text → Pass2Error
  branch_target conditional_target : Pass2Error
  encoding_failed : Opcode → Pass2Error

unfoldable pub opcode_uses_relative_label : Opcode → Bool
opcode_uses_relative_label jmp = true
opcode_uses_relative_label call = true
opcode_uses_relative_label je = true
opcode_uses_relative_label jne = true
opcode_uses_relative_label jg = true
opcode_uses_relative_label jge = true
opcode_uses_relative_label jl = true
opcode_uses_relative_label jle = true
opcode_uses_relative_label jz = true
opcode_uses_relative_label jnz = true
opcode_uses_relative_label js = true
opcode_uses_relative_label jns = true
opcode_uses_relative_label _ = false

unfoldable pub branch_target_error : Opcode → List Operand → Option Pass2Error
unfolding opcode_uses_relative_label
branch_target_error op (Operand.label name ∷ []) = none
branch_target_error jmp (_ ∷ []) = some Pass2Error.branch_target
branch_target_error call (_ ∷ []) = some Pass2Error.branch_target
branch_target_error op (_ ∷ []) =
    if opcode_uses_relative_label op then some Pass2Error.conditional_target else none
branch_target_error op _ = none

unfoldable pub is_mov_reg_label : Opcode → List Operand → ℕ → Bool
is_mov_reg_label mov (reg r ∷ Operand.label name ∷ []) operand_index = operand_index == 1
is_mov_reg_label _ _ operand_index = false

abbrev pub mov_reg_label_relocation_offset : ℕ
mov_reg_label_relocation_offset = 2

unfoldable pub relative_label_relocation_offset : Opcode → ℕ
relative_label_relocation_offset jmp = 1
relative_label_relocation_offset call = 1
relative_label_relocation_offset je = 2
relative_label_relocation_offset jne = 2
relative_label_relocation_offset jg = 2
relative_label_relocation_offset jge = 2
relative_label_relocation_offset jl = 2
relative_label_relocation_offset jle = 2
relative_label_relocation_offset jz = 2
relative_label_relocation_offset jnz = 2
relative_label_relocation_offset js = 2
relative_label_relocation_offset jns = 2
relative_label_relocation_offset _ = 0

-- What the loop over the operands adds to: `failed` is `resolution_error`, `target` is
-- `resolved_target`.
pub record Resolution : Type 0 where
  pub relocations : List Relocation
  pub errors : List Pass2Error
  pub target : ℤ
  pub failed : Bool

abbrev pub fail : Pass2Error → Resolution → Resolution
fail e r = record r { errors = e ∷ r.errors; failed = true }

abbrev pub push_relocation : Relocation → Resolution → Resolution
push_relocation relocation r = record r { relocations = relocation ∷ r.relocations }

abbrev pub text_relocation : RelocationKind → ℕ → Text → ℤ → Relocation
text_relocation kind offset symbol addend = record {
  section = RelocationSection.text;
  kind = kind;
  offset = offset;
  symbol = symbol;
  addend = addend;
}

-- Whether `symtable_lookup_ex` or `symtable_is_external` answers true.
abbrev pub is_known : SymbolTable → Text → Bool
is_known symtable name = elim (symtable_lookup_ex symtable name) [
  | none ↦ symtable_is_external symtable name
  | some found ↦ true
]

-- The instruction: its opcode and operands, its offset in the text, and its size.
module _ (symtable : SymbolTable) (op : Opcode) (ops : List Operand) (offset size : ℕ) where
  abbrev pub push_relative : Text → Resolution → Resolution
  push_relative name = push_relocation (
      text_relocation RelocationKind.pc32 (add_size offset (relative_label_relocation_offset op))
        name (negsuc 3))

  abbrev pub push_absolute : Text → Resolution → Resolution
  push_absolute name = push_relocation (
      text_relocation RelocationKind.abs64 (add_size offset mov_reg_label_relocation_offset) name
        (pos 0))

  -- `symtable_lookup_ex` found nothing.
  unfoldable pub resolve_missing : ℕ → Text → Resolution → Resolution
  unfolding opcode_uses_relative_label is_mov_reg_label relative_label_relocation_offset add_size
  resolve_missing j name r =
      let known = symtable_is_external symtable name in
      if known && opcode_uses_relative_label op
      then push_relative name r
      else if known && is_mov_reg_label op ops j
      then push_absolute name r
      else fail (Pass2Error.label_unresolved name) r

  -- A jump or a call to a label.
  unfoldable pub resolve_jump : Text → ℤ → SymbolSection → Resolution → Resolution
  unfolding add_size
  resolve_jump name target_offset target_section r =
      let target = target_offset -ℤ of_bits 64 (add_size offset size) in
      if not (is_section target_section SymbolSection.text)
      then fail (Pass2Error.jump_outside_text name) r
      else if ltb_ℤ target (negsuc 0x7fff_ffff) || ltb_ℤ (pos 0x7fff_ffff) target
      then fail (Pass2Error.jump_out_of_range name) (record r { target = target })
      else record r { target = target }

  unfoldable pub resolve_found : ℕ → Text → ℤ × SymbolSection → Resolution → Resolution
  unfolding opcode_uses_relative_label is_mov_reg_label add_size
  resolve_found j name (target_offset, target_section) r =
      if opcode_uses_relative_label op
      then resolve_jump name target_offset target_section r
      else if is_mov_reg_label op ops j
      then push_absolute name r
      else r

  unfoldable pub resolve_label : ℕ → Text → Option (ℤ × SymbolSection) → Resolution → Resolution
  resolve_label j name none r = resolve_missing j name r
  resolve_label j name (some found) r = resolve_found j name found r

  unfoldable pub resolve_operand : ℕ → Operand → Resolution → Resolution
  resolve_operand j (Operand.mem_rip_label name) r =
      if is_known symtable name then r else fail (Pass2Error.rip_symbol_unresolved name) r
  resolve_operand j (Operand.label name) r =
      resolve_label j name (symtable_lookup_ex symtable name) r
  resolve_operand j _ r = r

  unfoldable pub resolve_operands : ℕ → List Operand → Resolution → Resolution
  unfolding resolve_operand
  resolve_operands j [] r = r
  resolve_operands j (operand ∷ rest) r =
      resolve_operands (j + 1) rest (resolve_operand j operand r)

-- The relocations of RIP-relative operands behind an encoding of `len` bytes, or `none` where the
-- displacement is missing.
unfoldable pub rip_relocations : ℕ → ℕ → List Operand → List Relocation → Option (List Relocation)
unfolding add_size
rip_relocations offset len [] relocations = some relocations
rip_relocations offset len (Operand.mem_rip_label name ∷ rest) relocations =
    let later = rip_relocations offset len rest (
      text_relocation RelocationKind.pc32 (add_size offset (len - 4)) name (negsuc 3)
      ∷ relocations) in
    if ltb len 4 then none else later
rip_relocations offset len (_ ∷ rest) relocations = rip_relocations offset len rest relocations

-- The relocations and errors of the labels among the values of an `int64` directive at `offset`.
unfoldable pub resolve_values :
    SymbolTable → RelocationSection → ℕ → ℕ → List Operand → Resolution → Resolution
unfolding add_size
resolve_values symtable section offset j [] r = r
resolve_values symtable section offset j (Operand.label name ∷ rest) r =
    resolve_values symtable section offset (j + 1) rest (
      if is_known symtable name
      then push_relocation
          (record {
            section = section;
            kind = RelocationKind.abs64;
            offset = add_size offset (j * 8);
            symbol = name;
            addend = pos 0;
          })
          r
      else record r { errors = Pass2Error.data_symbol_unresolved name ∷ r.errors })
resolve_values symtable section offset j (_ ∷ rest) r =
    resolve_values symtable section offset (j + 1) rest r
