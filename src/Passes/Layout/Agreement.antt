-- ===== src/Passes/Layout/Agreement.antt =====
-- Where the first pass of src/passes finds no error, the second pass follows the same layout: line
-- by line, then for the whole program.
use nazm.Prelude.{ℕ, ◌^◌, ◌<◌, ◌≡◌, refl, sym, subst, false, ◌||◌, [], if◌then◌else◌, length}
use nazm.Symtable.{SymbolSection}
use nazm.Passes.Instruction.{DirectiveKind, Instruction, IsParsed}
use nazm.Passes.Offsets.{pass1_section_offset, is_section}
use nazm.Passes.First.{Pass1State, data_line, pass1_line}
use nazm.Passes.Sizes.{data_bytes}
use nazm.Passes.Output.{Pass2State, go, emission_section}
use nazm.Passes.Second.{pass2_line, write_data}
use nazm.Passes.Layout.{line_size, grow, Fits}
use nazm.Passes.Layout.Walk.{data_line-Accepts}
use nazm.Passes.Layout.Written.{sizes_of, Writes}
use nazm.Passes.Layout.Accepted.{idle-Writes, location-Writes, line-Writes, accepted-Writes}

module _ (pass1 : Pass1State) (small : pass1.offsets.bss < 2 ^ 64) (i : Instruction)
    (parsed : IsParsed i) (first : Pass1State) (st : Pass2State)
    (same : st.current_section ≡ first.current_section) where
  abbrev pub section_of : DirectiveKind → SymbolSection
  section_of kind = emission_section kind st.current_section

  abbrev pub round_size : DirectiveKind → ℕ
  round_size kind =
      line_size kind i (section_of kind) (pass1_section_offset (section_of kind) (sizes_of st))

  data-kind-Writes :
      (kind : DirectiveKind)
      → (data_line kind i first).errors ≡ []
      → Fits
          (grow st.current_section
            (length (data_bytes kind i.ops (pass1_section_offset st.current_section (sizes_of st))))
            (sizes_of st))
          pass1.offsets
      → Writes st.current_section
          (length (data_bytes kind i.ops (pass1_section_offset st.current_section (sizes_of st))))
          (sizes_of st)
          (if is_section st.current_section SymbolSection.text
            then go 0 st
            else write_data pass1 st.current_section kind i.ops st)
  data-kind-Writes kind h fits =
      let a = data_line-Accepts kind i first h in
      accepted-Writes pass1 small i parsed st kind
        (subst (λ s. is_section s SymbolSection.text || is_section s SymbolSection.unknown ≡ false)
          (sym same) a.outside_text)
        a.valid fits

  pub kind-Writes :
      (kind : DirectiveKind)
      → (pass1_line kind i first).errors ≡ []
      → Fits (grow (section_of kind) (round_size kind) (sizes_of st)) pass1.offsets
      → Writes (section_of kind) (round_size kind) (sizes_of st) (pass2_line pass1 kind i st)
  unfolding pass1_line pass2_line data_bytes
  kind-Writes DirectiveKind.none h fits = line-Writes pass1 small i parsed st fits
  kind-Writes DirectiveKind.text h fits = idle-Writes SymbolSection.text (sizes_of st) _ refl refl
  kind-Writes DirectiveKind.data_section h fits =
      idle-Writes SymbolSection.data_section (sizes_of st) _ refl refl
  kind-Writes DirectiveKind.read_only_data h fits =
      idle-Writes SymbolSection.read_only_data (sizes_of st) _ refl refl
  kind-Writes DirectiveKind.bss h fits = idle-Writes SymbolSection.bss (sizes_of st) _ refl refl
  kind-Writes DirectiveKind.global h fits =
      idle-Writes st.current_section (sizes_of st) st refl refl
  kind-Writes DirectiveKind.local h fits = idle-Writes st.current_section (sizes_of st) st refl refl
  kind-Writes DirectiveKind.external h fits =
      idle-Writes st.current_section (sizes_of st) st refl refl
  kind-Writes DirectiveKind.debug_file h fits =
      idle-Writes st.current_section (sizes_of st) st refl refl
  kind-Writes DirectiveKind.debug_file_bytes h fits =
      idle-Writes st.current_section (sizes_of st) st refl refl
  kind-Writes DirectiveKind.debug_location h fits = location-Writes i.ops st
  kind-Writes DirectiveKind.int8 h fits = data-kind-Writes DirectiveKind.int8 h fits
  kind-Writes DirectiveKind.int16 h fits = data-kind-Writes DirectiveKind.int16 h fits
  kind-Writes DirectiveKind.int32 h fits = data-kind-Writes DirectiveKind.int32 h fits
  kind-Writes DirectiveKind.int64 h fits = data-kind-Writes DirectiveKind.int64 h fits
  kind-Writes DirectiveKind.alignment h fits = data-kind-Writes DirectiveKind.alignment h fits
  kind-Writes DirectiveKind.zero_space h fits = data-kind-Writes DirectiveKind.zero_space h fits
  kind-Writes DirectiveKind.nul_string h fits = data-kind-Writes DirectiveKind.nul_string h fits
  kind-Writes DirectiveKind.invalid h fits = data-kind-Writes DirectiveKind.invalid h fits
