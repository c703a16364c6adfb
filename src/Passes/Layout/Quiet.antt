-- ===== src/Passes/Layout/Quiet.antt =====
-- The errors of passes/pass1.c stay: no line takes one back.
use nazm.Prelude.{◌≡◌, List, [], ◌∷◌}
use nazm.Symtable.{SymbolBinding}
use nazm.Passes.Instruction.{DirectiveKind, Instruction}
use nazm.Passes.First.{Pass1State, pass1_line, pass1_step, pass1_loop}
use nazm.Passes.Layout.Walk.{
  file-Lays, location-Lays, label-Lays, external-Lays, visibility-Lays, data_line-quiet,
  instruction_line-labelled,
}

line-quiet :
    (kind : DirectiveKind) (i : Instruction) (st : Pass1State)
    → (pass1_line kind i st).errors ≡ []
    → st.errors ≡ []
unfolding pass1_line
line-quiet DirectiveKind.none i st h =
    (label-Lays i.label st (instruction_line-labelled i st h)).quiet
line-quiet DirectiveKind.text i st h = h
line-quiet DirectiveKind.data_section i st h = h
line-quiet DirectiveKind.read_only_data i st h = h
line-quiet DirectiveKind.bss i st h = h
line-quiet DirectiveKind.external i st h = (external-Lays i.ops st h).quiet
line-quiet DirectiveKind.global i st h = (visibility-Lays SymbolBinding.global i.ops st h).quiet
line-quiet DirectiveKind.local i st h = (visibility-Lays SymbolBinding.local i.ops st h).quiet
line-quiet DirectiveKind.debug_file i st h = (file-Lays _ st h).quiet
line-quiet DirectiveKind.debug_file_bytes i st h = (file-Lays _ st h).quiet
line-quiet DirectiveKind.debug_location i st h = (location-Lays _ st h).quiet
line-quiet DirectiveKind.int8 i st h = data_line-quiet DirectiveKind.int8 i st h
line-quiet DirectiveKind.int16 i st h = data_line-quiet DirectiveKind.int16 i st h
line-quiet DirectiveKind.int32 i st h = data_line-quiet DirectiveKind.int32 i st h
line-quiet DirectiveKind.int64 i st h = data_line-quiet DirectiveKind.int64 i st h
line-quiet DirectiveKind.alignment i st h = data_line-quiet DirectiveKind.alignment i st h
line-quiet DirectiveKind.zero_space i st h = data_line-quiet DirectiveKind.zero_space i st h
line-quiet DirectiveKind.nul_string i st h = data_line-quiet DirectiveKind.nul_string i st h
line-quiet DirectiveKind.invalid i st h = data_line-quiet DirectiveKind.invalid i st h

-- An error stays, so a pass without one has had none before.
pub step-quiet :
    (i : Instruction) (st : Pass1State) → (pass1_step i st).errors ≡ [] → st.errors ≡ []
unfolding pass1_step
step-quiet i st h = line-quiet i.directive_kind i st h

pub loop-quiet :
    (is : List Instruction) (st : Pass1State) → (pass1_loop is st).errors ≡ [] → st.errors ≡ []
unfolding pass1_loop
loop-quiet [] st h = h
loop-quiet (i ∷ is) st h = step-quiet i st (loop-quiet is (pass1_step i st) h)
