-- ===== src/Passes/Reaches.antt =====
-- Jumps and calls of a whole program, in src/passes: they arrive at their labels.
use nazm.Prelude.{
  ℕ, ◌+◌, ◌^◌, ◌<◌, ◌≤◌, ◌≡◌, refl, sym, ap, ◌∙◌, subst, List, [], ◌∷◌, ◌++◌, drop, length,
  append_assoc, Option, some, not, ◌||◌, false, pos, ◌-ℤ◌, arith,
}
use nazm.Encoder.Operands.{Text, label}
use nazm.Encoder.Opcodes.{Opcode}
use nazm.Encoder.Table.{encoder_encode}
use nazm.Encoder.Decode.Jumps.{Transfer, transfer_of, read_jump, read_jump-encoder_encode}
use nazm.Symtable.{SymbolSection, symtable_lookup_ex}
use nazm.Passes.Instruction.{DirectiveKind, Instruction, AllParsed}
use nazm.Passes.Offsets.{is_section}
use nazm.Passes.First.{Pass1State, laid_size, opcode_is_invalid, pass1_step, pass1_start, pass1_run}
use nazm.Passes.Output.{Pass2State, go, pass2_start}
use nazm.Passes.Second.{pass2_loop, pass2_step, pass2_line, write_line, pass2_run}
use nazm.Passes.Layout.Lines.{step-Lays}
use nazm.Passes.Layout.Program.{Matches, loop-Matches}
use nazm.Passes.Agreement.{bss_bound, start-Matches, pass2_run-placements}
use nazm.Passes.Middle.{
  reached, middle-step-quiet, middle-before-quiet, middle-IsParsed, middle-before-AllParsed,
  middle-HasRoom, middle-before-HasRoom, middle-Fits, middle-before-Fits, pass2_loop-append,
}
use nazm.Passes.Lines.{state_of}
use nazm.Passes.Appends.{Extends, loop-Appends}
use nazm.Passes.Jumps.{distance-IsI32, after_jump, jump-goes}

drop-length : (xs ys : List ℕ) → drop (length xs) (xs ++ ys) ≡ ys
drop-length [] ys = refl
drop-length (x ∷ xs) ys = drop-length xs ys

-- A line with a jump or a call to a label.
abbrev pub transfer_line : Opcode → Text → Option Text → Instruction
transfer_line op name own = record {
  opcode = op;
  ops = label name ∷ [];
  label = own;
  directive_kind = DirectiveKind.none;
}

transfer-valid :
    (op : Opcode) (t : Transfer) → transfer_of op ≡ some t → opcode_is_invalid op ≡ false
transfer-valid Opcode.invalid t h = absurd (ground arith)
transfer-valid op t h = refl

module _ (before after : List Instruction) (op : Opcode) (t : Transfer) (name : Text)
    (own : Option Text) (goal : ℕ)
    (parsed : AllParsed (before ++ (transfer_line op name own ∷ after)))
    (few : length (before ++ (transfer_line op name own ∷ after)) < 2 ^ 32)
    (quiet : (pass1_run (before ++ (transfer_line op name own ∷ after))).errors ≡ [])
    (transfers : transfer_of op ≡ some t)
    (in_text : (reached before).current_section ≡ SymbolSection.text)
    (there : symtable_lookup_ex
        (pass1_run (before ++ (transfer_line op name own ∷ after))).symtable
        name
      ≡ some (pos goal, SymbolSection.text))
    (near : goal < 2 ^ 31)
    (small : (pass1_run (before ++ (transfer_line op name own ∷ after))).offsets.text
      < 2 ^ 31) where
  abbrev line : Instruction
  line = transfer_line op name own

  abbrev whole : List Instruction
  whole = before ++ (line ∷ after)

  abbrev first : Pass1State
  first = pass1_run whole

  abbrev offset : ℕ
  offset = (reached before).offsets.text

  abbrev size : ℕ
  size = laid_size op (label name ∷ [])

  valid : opcode_is_invalid op ≡ false
  valid = transfer-valid op t transfers

  grown : (pass1_step line (reached before)).offsets.text ≡ offset + size
  grown =
      let laid =
        step-Lays line (middle-IsParsed before line after quiet parsed few) (length after)
          (reached before) (middle-HasRoom before line after quiet parsed few)
          (middle-step-quiet before line after quiet) in
      ap (λ o. o.text) laid.lays ∙ rw (in_text, valid) refl

  room : offset + size ≤ first.offsets.text
  room = rw grown at (middle-Fits before line after quiet parsed few).0

  -- The second pass comes to the line.
  arrives :
      (mid : Pass2State) × ((pass2_loop first before pass2_start).1 ≡ go 0 mid)
      × Matches (reached before) mid
  arrives =
      (loop-Matches first (bss_bound whole parsed few quiet) before pass1_start pass2_start
        (middle-before-AllParsed before line after quiet parsed few)
        (middle-before-HasRoom before line after quiet parsed few) start-Matches
        (middle-before-quiet before line after quiet)
        (middle-before-Fits before line after quiet parsed few)).1

  module _ (mid : Pass2State) (goes : (pass2_loop first before pass2_start).1 ≡ go 0 mid)
      (m : Matches (reached before) mid) where
    at_offset : length mid.text_bytes ≡ offset
    at_offset = ap (λ o. o.text) m.same_sizes

    fits : length mid.text_bytes + size ≤ first.offsets.text
    fits = rw at_offset room

    abbrev next : Pass2State
    next = after_jump first op t name goal transfers there near small mid fits

    encodes :
        (opcode_is_invalid op || not (is_section mid.current_section SymbolSection.text)) ≡ false
    encodes = let here = m.same_section ∙ in_text in rw (here, valid) refl

    stepped : pass2_step first line mid ≡ go size next
    unfolding pass2_step pass2_line write_line
    stepped =
        rw (write_line, encodes)
          (jump-goes first op t name goal transfers there near small mid fits)

    rest_of : (pass2_loop first whole pass2_start).1 ≡ (pass2_loop first after next).1
    unfolding pass2_loop
    rest_of =
        pass2_loop-append first before (line ∷ after) pass2_start mid 0 goes
        ∙ rw (pass2_loop, stepped) refl

    kept : Extends next.text_bytes (pass2_run whole first).1.text_bytes
    kept =
        let ends = (pass2_run-placements whole parsed few quiet).2 in
        subst (λ flow. Extends next.text_bytes (state_of flow).text_bytes) (sym rest_of ∙ ends)
          (loop-Appends first after next)

    abbrev end_bytes : List ℕ
    end_bytes = (pass2_run whole first).1.text_bytes

    -- The end of the program reads as the transfer at the offset `n`.
    abbrev ReadsAt : ℕ → Type 0
    ReadsAt n =
        (rest : List ℕ) × (read_jump (drop n end_bytes)
          ≡ some (t, pos goal -ℤ pos (n + size), rest))

    reads : ReadsAt (length mid.text_bytes)
    reads =
        let (more, extends) = kept in
        let written = mid.text_bytes in
        let target = pos goal -ℤ pos (length written + size) in
        let bytes = (encoder_encode op (label name ∷ []) target).bytes in
        let apart = extends ∙ append_assoc written bytes more in
        let near_enough = distance-IsI32 first op t name goal transfers there near small mid fits in
        let dropped = ap (drop (length written)) apart ∙ drop-length written (bytes ++ more) in
        (
          more,
          ap read_jump dropped
              ∙ (read_jump-encoder_encode op t name target transfers).1 near_enough more,
        )

  -- Take a jump or a call to a label in the text section of a parsed program of fewer than 2 ^ 32
  -- lines, in which the first pass finds no error. Where the label is found in the text, below
  -- 2 ^ 31, and the text has fewer than 2 ^ 31 bytes: at the offset that the first pass gives to the
  -- line, the finished text reads as the transfer of control that the opcode names, with the
  -- displacement from the end of the instruction to the label.
  pub pass2_run-reaches :
      (rest : List ℕ) × (read_jump
          (drop (reached before).offsets.text (pass2_run whole first).1.text_bytes)
        ≡ some (
          t,
          pos goal -ℤ pos ((reached before).offsets.text + laid_size op (label name ∷ [])),
          rest,
        ))
  pass2_run-reaches =
      let (mid, goes, m) = arrives in
      subst (ReadsAt mid goes m) (at_offset mid goes m) (reads mid goes m)
