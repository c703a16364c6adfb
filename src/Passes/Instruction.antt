-- ===== src/Passes/Instruction.antt =====
-- The instructions of parser/instruction.h. The line and column fields and the spelling of the
-- directive serve the diagnostics, and the passes decide nothing by them.
use nazm.Prelude.{ℕ, ◌+◌, ◌≤◌, ◌<◌, ◌≡◌, true, List, [], ◌∷◌, Option, suc, length}
use nazm.Encoder.Operands.{Operand, Text, string}
use nazm.Encoder.Opcodes.{Opcode}
use nazm.Encoder.RipRelative.{ignores_operands}

pub data DirectiveKind : Type 0 where
  none text data_section read_only_data bss : DirectiveKind
  int8 int16 int32 int64 alignment zero_space nul_string : DirectiveKind
  global local external : DirectiveKind
  debug_file debug_file_bytes debug_location invalid : DirectiveKind

-- `op_count` is the length of `ops`.
pub record Instruction : Type 0 where
  pub opcode : Opcode
  pub ops : List Operand
  pub label : Option Text
  pub directive_kind : DirectiveKind

-- The bytes that the strings of a directive take, each with its NUL.
abbrev pub string_bytes : List Operand → ℕ
string_bytes [] = 0
string_bytes (string s ∷ ops) = suc (length s) + string_bytes ops
string_bytes (_ ∷ ops) = string_bytes ops

-- What the parser gives from a source of at most 100 MiB: at most `MAX_OPERANDS` operands, none where
-- the instruction takes none, and texts whose length an `int` holds.
abbrev pub IsParsed : Instruction → Type 0
IsParsed i =
    (length i.ops ≤ 3)
    × (string_bytes i.ops < 2_000_000_000)
    × (ignores_operands i.opcode ≡ true → i.ops ≡ [])

abbrev pub AllParsed : List Instruction → Type 0
AllParsed [] = Unit
AllParsed (i ∷ is) = IsParsed i × AllParsed is
