-- ===== src/Passes/Layout/Steps.antt =====
-- The loop of passes/pass1.c follows the layout: the offsets stay in bounds and never shrink.
use nazm.Prelude.{ℕ, suc, ◌*◌, ◌+◌, ◌^◌, ◌<◌, ◌≡◌, List, [], ◌∷◌, length, arith}
use nazm.Symtable.{SymbolSection}
use nazm.Passes.Instruction.{DirectiveKind, Instruction, IsParsed, AllParsed}
use nazm.Passes.First.{Pass1State, data_line, pass1_line, pass1_step, pass1_loop}
use nazm.Passes.Sizes.{data_bytes}
use nazm.Passes.Emission.{data_directive_size_lem}
use nazm.Passes.Layout.{HasRoom, line_size, Fits, grow-HasRoom, Fits-grow, Fits-trans}
use nazm.Passes.Layout.Walk.{laid_size-InBuffer, data_line-Accepts}
use nazm.Passes.Layout.Lines.{next_section, next_size, step-Lays}
use nazm.Passes.Layout.Quiet.{loop-quiet}

data-small :
    (kind : DirectiveKind) (i : Instruction) (st : Pass1State) (offset : ℕ)
    → IsParsed i
    → (data_line kind i st).errors ≡ []
    → length (data_bytes kind i.ops offset) < 2 ^ 31
data-small kind i st offset parsed h =
    let valid = (data_line-Accepts kind i st h).valid in
    (data_directive_size_lem i.ops parsed.0 parsed.1 offset kind valid).1

line-small :
    (kind : DirectiveKind) (i : Instruction) (st : Pass1State) (section : SymbolSection)
    (offset : ℕ)
    → IsParsed i
    → (pass1_line kind i st).errors ≡ []
    → line_size kind i section offset < 2 ^ 31
unfolding pass1_line data_bytes
line-small DirectiveKind.none i st section offset parsed h =
    ground (arith, laid_size-InBuffer i.opcode i.ops)
line-small DirectiveKind.text i st section offset parsed h = omega arith
line-small DirectiveKind.data_section i st section offset parsed h = omega arith
line-small DirectiveKind.read_only_data i st section offset parsed h = omega arith
line-small DirectiveKind.bss i st section offset parsed h = omega arith
line-small DirectiveKind.external i st section offset parsed h = omega arith
line-small DirectiveKind.global i st section offset parsed h = omega arith
line-small DirectiveKind.local i st section offset parsed h = omega arith
line-small DirectiveKind.debug_file i st section offset parsed h = omega arith
line-small DirectiveKind.debug_file_bytes i st section offset parsed h = omega arith
line-small DirectiveKind.debug_location i st section offset parsed h = omega arith
line-small DirectiveKind.int8 i st section offset parsed h =
    data-small DirectiveKind.int8 i st offset parsed h
line-small DirectiveKind.int16 i st section offset parsed h =
    data-small DirectiveKind.int16 i st offset parsed h
line-small DirectiveKind.int32 i st section offset parsed h =
    data-small DirectiveKind.int32 i st offset parsed h
line-small DirectiveKind.int64 i st section offset parsed h =
    data-small DirectiveKind.int64 i st offset parsed h
line-small DirectiveKind.alignment i st section offset parsed h =
    data-small DirectiveKind.alignment i st offset parsed h
line-small DirectiveKind.zero_space i st section offset parsed h =
    data-small DirectiveKind.zero_space i st offset parsed h
line-small DirectiveKind.nul_string i st section offset parsed h =
    data-small DirectiveKind.nul_string i st offset parsed h
line-small DirectiveKind.invalid i st section offset parsed h =
    data-small DirectiveKind.invalid i st offset parsed h

-- The state behind an error-free step: the offsets, the room that is left, and the growth.
module _ (i : Instruction) (parsed : IsParsed i) (left : ℕ) (st : Pass1State)
    (room : HasRoom (suc left * 2 ^ 31) st.offsets) (h : (pass1_step i st).errors ≡ []) where
  pub step-small : next_size i st < 2 ^ 31
  unfolding pass1_step
  step-small = line-small i.directive_kind i st (next_section i st) _ parsed h

  pub step-HasRoom : HasRoom (left * 2 ^ 31) (pass1_step i st).offsets
  step-HasRoom =
      rw (step-Lays i parsed left st room h).lays
        (grow-HasRoom (next_section i st) (next_size i st) left st.offsets step-small room)

  pub step-Fits : Fits st.offsets (pass1_step i st).offsets
  step-Fits =
      rw (step-Lays i parsed left st room h).lays
        (Fits-grow (next_section i st) (next_size i st) st.offsets)

-- The offsets never shrink.
pub loop-Fits :
    (is : List Instruction) (st : Pass1State)
    → AllParsed is
    → HasRoom (length is * 2 ^ 31) st.offsets
    → (pass1_loop is st).errors ≡ []
    → Fits st.offsets (pass1_loop is st).offsets
unfolding pass1_loop
loop-Fits [] st parsed room h = (omega arith, omega arith, omega arith, omega arith)
loop-Fits (i ∷ is) st (p, ps) room h =
    let quiet = loop-quiet is (pass1_step i st) h in
    let here = step-Fits i p (length is) st room quiet in
    let later = loop-Fits is (pass1_step i st) ps (step-HasRoom i p (length is) st room quiet) h in
    Fits-trans st.offsets (pass1_step i st).offsets _ here later

-- What room is left behind the lines of a part of the program.
pub loop-HasRoom :
    (is : List Instruction) (left : ℕ) (st : Pass1State)
    → AllParsed is
    → HasRoom ((length is + left) * 2 ^ 31) st.offsets
    → (pass1_loop is st).errors ≡ []
    → HasRoom (left * 2 ^ 31) (pass1_loop is st).offsets
unfolding pass1_loop
loop-HasRoom [] left st parsed room h = ground arith
loop-HasRoom (i ∷ is) left st (p, ps) room h =
    let quiet = loop-quiet is (pass1_step i st) h in
    loop-HasRoom is left (pass1_step i st) ps
      (step-HasRoom i p (length is + left) st (ground arith) quiet) h
