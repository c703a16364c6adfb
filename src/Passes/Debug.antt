-- ===== src/Passes/Debug.antt =====
-- The debug directives of passes/pass1.c: source files with their numbers, and source locations. A
-- path is its bytes, and the list of files holds its entries in the order of their directives.
use nazm.Prelude.{
  ℕ, zero, suc, ◌+◌, ◌*◌, ◌%◌, ◌^◌, Bool, true, false, ◌&&◌, ◌||◌, not, List, [], ◌∷◌, ◌++◌, Option,
  none, some, ltb, leb, ◌==◌, if◌then◌else◌, length, ℤ, pos, pos_part, eq_ℤ, leb_ℤ, ltb_ℤ,
  to_unsigned,
}
use nazm.Encoder.Operands.{Operand, Text, imm, string}
use nazm.Unicode.Utf8.{byte, utf8_next_codepoint}
use nazm.Unicode.Classes.{nazm_is_arabic_digit, arabic_digit_value}
use nazm.Passes.Instruction.{DirectiveKind, Instruction, debug_file_bytes, debug_location}

pub data DebugError : Type 0 where
  file_operands file_id_out_of_range path_empty_or_nul : DebugError
  path_not_digits path_byte_out_of_range path_bytes_empty path_not_utf8 : DebugError
  file_id_repeated : DebugError
  location_operands location_out_of_range location_file_undeclared : DebugError

pub record DebugFile : Type 0 where
  pub id : ℕ
  pub path : Text

unfoldable pub debug_file_find : List DebugFile → ℕ → Option DebugFile
debug_file_find [] id = none
debug_file_find (f ∷ fs) id =
    let rest = debug_file_find fs id in if f.id == id then some f else rest

unfoldable pub debug_file_push : List DebugFile → ℕ → Text → List DebugFile
debug_file_push files id path = files ++ (record { id = id; path = path } ∷ [])

-- One number of the path: its value, the count of its digits, the offset behind it, and
-- `ended_with_separator`.
pub record PathByte : Type 0 where
  value : ℕ
  digits : ℕ
  offset : ℕ
  separated : Bool

-- `none` where a code point is neither a digit nor the separator, or a fourth digit.
unfoldable pub path_digits : ℕ → Text → PathByte → Option PathByte
path_digits zero encoded b = some b
path_digits (suc fuel) encoded b =
    let (cp, after) = utf8_next_codepoint encoded b.offset in
    let rest = path_digits fuel encoded (record {
      value = b.value * 10 + pos_part (arabic_digit_value cp);
      digits = suc b.digits;
      offset = after;
      separated = false;
    }) in
    if leb (length encoded) b.offset
    then some b
    else if cp == 0x060C
    then some (record b { offset = after; separated = after == length encoded })
    else if not (nazm_is_arabic_digit cp) || leb 3 b.digits
    then none
    else rest

-- The loop over the numbers, `ended_with_separator` at its end, or an error.
unfoldable pub path_loop : ℕ → Text → ℕ → Bool → Text → Option DebugError × (Text × Bool)
unfolding path_digits
path_loop zero encoded offset separated decoded = (none, (decoded, separated))
path_loop (suc fuel) encoded offset separated decoded =
    if leb (length encoded) offset
    then (none, (decoded, separated))
    else elim (path_digits (length encoded) encoded
        (record { value = 0; digits = 0; offset = offset; separated = separated })) [
          | none ↦ (some DebugError.path_not_digits, ([], false))
          | some b ↦
              let rest =
                path_loop fuel encoded b.offset b.separated (decoded ++ (b.value % 2 ^ 8 ∷ [])) in
              if b.digits == 0 || ltb 255 b.value || b.value == 0
              then (some DebugError.path_byte_out_of_range, ([], false))
              else rest
        ]

-- `valid_replacement_character`: the three bytes of U+FFFD at `start`.
abbrev pub replacement_at : Text → ℕ → ℕ → Bool
replacement_at decoded start after =
    after == start + 3
    && byte decoded start == 0xEF
    && byte decoded (start + 1) == 0xBF
    && byte decoded (start + 2) == 0xBD

-- The loop that looks for ill-formed UTF-8.
unfoldable pub path_valid : ℕ → Text → ℕ → Bool
path_valid zero decoded offset = true
path_valid (suc fuel) decoded offset =
    let (cp, after) = utf8_next_codepoint decoded offset in
    let rest = path_valid fuel decoded after in
    if leb (length decoded) offset
    then true
    else if cp == 0xFFFD && not (replacement_at decoded offset after)
    then false
    else rest

-- An error, or the path.
unfoldable pub decode_debug_path_bytes : Text → Option DebugError × Text
unfolding path_loop path_valid
decode_debug_path_bytes encoded =
    let (failed, (decoded, separated)) = path_loop (length encoded) encoded 0 false [] in
    elim failed [
      | some e ↦ (some e, [])
      | none ↦
          if length decoded == 0 || separated
          then (some DebugError.path_bytes_empty, [])
          else if not (path_valid (length decoded) decoded 0)
          then (some DebugError.path_not_utf8, [])
          else (none, decoded)
    ]

-- `strlen(s) != len`: the text has a NUL inside.
abbrev pub has_nul : Text → Bool
has_nul [] = false
has_nul (c ∷ s) = c == 0 || has_nul s

-- The path of either directive.
abbrev pub debug_path : DirectiveKind → Text → Option DebugError × Text
debug_path debug_file_bytes s = decode_debug_path_bytes s
debug_path _ s = (none, s)

-- The files with the number `id` and the path, or the error of the path or the number.
abbrev pub add_debug_file :
    List DebugFile → ℕ → Option DebugError × Text → List DebugFile × Option DebugError
add_debug_file files id (some e, path) = (files, some e)
add_debug_file files id (none, path) = elim (debug_file_find files id) [
  | some f ↦ (files, some DebugError.file_id_repeated)
  | none ↦ (debug_file_push files id path, none)
]

-- The files afterwards, and the error.
unfoldable pub validate_debug_file_directive :
    List DebugFile → DirectiveKind → List Operand → List DebugFile × Option DebugError
validate_debug_file_directive files kind (imm v ∷ string s ∷ []) =
    if leb_ℤ v (pos 0) || ltb 0xffff_ffff (to_unsigned 64 v)
    then (files, some DebugError.file_id_out_of_range)
    else if length s == 0 || has_nul s
    then (files, some DebugError.path_empty_or_nul)
    else add_debug_file files (to_unsigned 32 v) (debug_path kind s)
validate_debug_file_directive files kind ops = (files, some DebugError.file_operands)

abbrev pub location_fits : ℤ → ℤ → ℤ → Bool
location_fits file line column = not (
    leb_ℤ file (pos 0)
    || ltb 0xffff_ffff (to_unsigned 64 file)
    || leb_ℤ line (pos 0)
    || ltb_ℤ (pos 0x00ff_ffff) line
    || leb_ℤ column (pos 0)
    || ltb_ℤ (pos 0xffff) column)

-- `none` where the code returns true.
unfoldable pub validate_debug_location_directive : List Operand → Option DebugError
validate_debug_location_directive (imm file ∷ imm line ∷ imm column ∷ []) =
    if eq_ℤ file (pos 0) && eq_ℤ line (pos 0) && eq_ℤ column (pos 0)
    then none
    else if location_fits file line column
    then none
    else some DebugError.location_out_of_range
validate_debug_location_directive _ = some DebugError.location_operands

-- The file number of a location that the loop does not skip.
abbrev pub location_file : DirectiveKind → List Operand → Option ℕ
location_file debug_location (imm file ∷ b ∷ c ∷ []) =
    if leb_ℤ file (pos 0) || ltb 0xffff_ffff (to_unsigned 64 file)
    then none
    else some (to_unsigned 32 file)
location_file _ _ = none

-- An error for every location whose file is not declared.
unfoldable pub validate_debug_location_files : List Instruction → List DebugFile → List DebugError
validate_debug_location_files [] files = []
validate_debug_location_files (i ∷ is) files =
    let rest = validate_debug_location_files is files in
    elim (location_file i.directive_kind i.ops) [
      | none ↦ rest
      | some id ↦ elim (debug_file_find files id) [
        | some f ↦ rest
        | none ↦ DebugError.location_file_undeclared ∷ rest
      ]
    ]
