-- ===== src/Passes/Records.antt =====
-- The line records of src/passes: what the first pass checks of the source locations, and so what the
-- second pass records.
use nazm.Prelude.{
  ℕ, ◌≤◌, ◌≡◌, ◌⊎◌, refl, sym, ap, subst, ◌&&◌, ◌||◌, not, List, [], ◌∷◌, none, some, if◌then◌else◌,
  Bool-cases, inl, inr, ℤ, pos, negsuc, to_unsigned, ◌==◌, arith,
}
use nazm.Encoder.Operands.{Operand, imm}
use nazm.Symtable.{SymbolSection}
use nazm.Passes.Instruction.{DirectiveKind, Instruction}
use nazm.Passes.Debug.{DebugFile, debug_file_find, location_file, validate_debug_location_directive}
use nazm.Passes.First.{Pass1State, opcode_is_invalid}
use nazm.Passes.Offsets.{is_section}
use nazm.Passes.Output.{DebugLine, Pass2State, Flow, go, stop}
use nazm.Passes.Second.{
  pass2_loop, pass2_step, store_location, note_line, write_data, write_line, pass2_line,
}
use nazm.Passes.Lines.{state_of, Debug, debug_of, instruction-Keeps, data-Keeps}

-- The file has been declared.
abbrev pub Declared : List DebugFile → ℕ → Type 0
Declared files id = (f : DebugFile) × (debug_file_find files id ≡ some f)

-- A location that both debug formats can hold, in a declared file.
abbrev pub IsLocation : List DebugFile → ℕ → ℕ → ℕ → Type 0
IsLocation files file line column =
    Declared files file × (1 ≤ line) × (line ≤ 0x00ff_ffff) × (column ≤ 0xffff)

abbrev pub AllRecords : List DebugFile → List DebugLine → Type 0
AllRecords files [] = Unit
AllRecords files (l ∷ ls) = IsLocation files l.file_id l.line l.column × AllRecords files ls

-- No location is in force, or one that can be recorded; and so were the records.
pub record Records (files : List DebugFile) (d : Debug) : Type 0 where
  pub in_force : (d.file ≡ 0) ⊎ IsLocation files d.file d.line d.column
  pub recorded : AllRecords files d.records

-- What the first pass has checked of a location directive.
pub record Located (files : List DebugFile) (ops : List Operand) : Type 0 where
  pub valid : validate_debug_location_directive ops ≡ none
  pub declared :
      (id : ℕ) → location_file DirectiveKind.debug_location ops ≡ some id → Declared files id

valid-location :
    (file line column : ℤ)
    → validate_debug_location_directive (imm file ∷ imm line ∷ imm column ∷ []) ≡ none
    → (to_unsigned 32 file ≡ 0)
      ⊎ ((location_file DirectiveKind.debug_location (imm file ∷ imm line ∷ imm column ∷ [])
            ≡ some (to_unsigned 32 file))
          × (1 ≤ to_unsigned 32 line)
          × (to_unsigned 32 line ≤ 0x00ff_ffff)
          × (to_unsigned 32 column ≤ 0xffff))
unfolding validate_debug_location_directive
valid-location (pos file) (pos line) (pos column) h = ground arith
valid-location (negsuc file) line column h = absurd (ground arith)
valid-location (pos file) (negsuc line) column h = absurd (ground arith)
valid-location (pos file) (pos line) (negsuc column) h = absurd (ground arith)

pub Flow-cases :
    (flow : Flow)
    → ((size : ℕ) × (next : Pass2State) × (flow ≡ go size next))
      ⊎ ((size : ℕ) × (end : Pass2State) × (flow ≡ stop size end))
Flow-cases (go size next) = inl (size, next, refl)
Flow-cases (stop size end) = inr (size, end, refl)

module _ (files : List DebugFile) where
  note-Records :
      (st : Pass2State) → Records files (debug_of st) → Records files (debug_of (note_line st))
  unfolding note_line
  note-Records st r = elim (Bool-cases (not (st.debug_file == 0) && not (st.debug_line == 0))) [
    | inl e ↦
        let at_line : IsLocation files st.debug_file st.debug_line st.debug_column =
          elim r.in_force [ inl nothing ↦ absurd (ground arith) | inr l ↦ l ] in
        rw e record { in_force = r.in_force; recorded = (at_line, r.recorded) }
    | inr e ↦ rw e record { in_force = r.in_force; recorded = r.recorded }
  ]

  store-Records :
      (ops : List Operand) (st : Pass2State)
      → Located files ops
      → Records files (debug_of st)
      → Records files (debug_of (store_location ops st))
  unfolding validate_debug_location_directive
  store-Records (imm file ∷ imm line ∷ imm column ∷ []) st l r = record {
    in_force = elim (valid-location file line column l.valid) [
      | inl nothing ↦ inl nothing
      | inr (located, positive, small, narrow) ↦
          inr (l.declared (to_unsigned 32 file) located, positive, small, narrow)
    ];
    recorded = r.recorded;
  }
  store-Records _ st l r = r

  -- A line that has no location, or one that the first pass has checked.
  abbrev pub LineLocated : DirectiveKind → List Operand → Type 0
  LineLocated DirectiveKind.debug_location ops = Located files ops
  LineLocated kind ops = Unit

  module _ (pass1 : Pass1State) (i : Instruction) (st : Pass2State)
      (r : Records files (debug_of st)) where
    code-Records : Records files (debug_of (state_of (write_line pass1 i st)))
    unfolding write_line
    code-Records =
        elim (Bool-cases
          (opcode_is_invalid i.opcode || not (is_section st.current_section SymbolSection.text))) [
            | inl e ↦ rw (write_line, e) r
            | inr e ↦
                rw (write_line, e)
                  (subst (Records files) (sym (instruction-Keeps pass1 i.opcode i.ops st))
                    (note-Records st r))
          ]

    data-Records :
        (kind : DirectiveKind)
        → Records files (
            debug_of (
              state_of (
                if is_section st.current_section SymbolSection.text
                then go 0 st
                else write_data pass1 st.current_section kind i.ops st)))
    data-Records kind = elim (Bool-cases (is_section st.current_section SymbolSection.text)) [
      | inl e ↦ rw e r
      | inr e ↦
          rw e (subst (Records files) (sym (data-Keeps pass1 st.current_section kind i.ops st)) r)
    ]

    line-Records :
        (kind : DirectiveKind)
        → LineLocated kind i.ops
        → Records files (debug_of (state_of (pass2_line pass1 kind i st)))
    unfolding pass2_line
    line-Records DirectiveKind.none l = code-Records
    line-Records DirectiveKind.debug_location l = store-Records i.ops st l r
    line-Records DirectiveKind.text l = r
    line-Records DirectiveKind.data_section l = r
    line-Records DirectiveKind.read_only_data l = r
    line-Records DirectiveKind.bss l = r
    line-Records DirectiveKind.external l = r
    line-Records DirectiveKind.global l = r
    line-Records DirectiveKind.local l = r
    line-Records DirectiveKind.debug_file l = r
    line-Records DirectiveKind.debug_file_bytes l = r
    line-Records DirectiveKind.int8 l = data-Records DirectiveKind.int8
    line-Records DirectiveKind.int16 l = data-Records DirectiveKind.int16
    line-Records DirectiveKind.int32 l = data-Records DirectiveKind.int32
    line-Records DirectiveKind.int64 l = data-Records DirectiveKind.int64
    line-Records DirectiveKind.alignment l = data-Records DirectiveKind.alignment
    line-Records DirectiveKind.zero_space l = data-Records DirectiveKind.zero_space
    line-Records DirectiveKind.nul_string l = data-Records DirectiveKind.nul_string
    line-Records DirectiveKind.invalid l = data-Records DirectiveKind.invalid

  abbrev pub AllLocated : List Instruction → Type 0
  AllLocated [] = Unit
  AllLocated (i ∷ is) = LineLocated i.directive_kind i.ops × AllLocated is

  pub flow-Records :
      (pass1 : Pass1State) (is : List Instruction) (st : Pass2State)
      → AllLocated is
      → Records files (debug_of st)
      → Records files (debug_of (state_of (pass2_loop pass1 is st).1))
  unfolding pass2_loop pass2_step
  flow-Records pass1 [] st l r = r
  flow-Records pass1 (i ∷ is) st (l, ls) r =
      let here = line-Records pass1 i st r i.directive_kind l in
      elim (Flow-cases (pass2_step pass1 i st)) [
        | inl (size, next, e) ↦
            let stepped = ap state_of e in
            rw (pass2_loop, e)
              (flow-Records pass1 is next ls (subst (λ s. Records files (debug_of s)) stepped here))
        | inr (size, end, e) ↦
            rw (pass2_loop, e) (subst (λ s. Records files (debug_of s)) (ap state_of e) here)
      ]
