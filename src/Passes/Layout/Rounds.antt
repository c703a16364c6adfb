-- ===== src/Passes/Layout/Rounds.antt =====
-- A round of the second pass of passes/pass2.c follows the layout, whatever its line is.
use nazm.Prelude.{
  ℕ, ◌+◌, ◌-◌, ◌^◌, ◌≤◌, ◌<◌, ◌≡◌, refl, ap, Bool, true, false, ◌||◌, List, ◌++◌, none, length,
  length-append, pos, ltb_ℤ, to_unsigned, ◌==◌, arith,
}
use nazm.Symtable.{SymbolSection}
use nazm.Passes.Instruction.{DirectiveKind, Instruction, IsParsed}
use nazm.Passes.Offsets.{is_section, add_size, add_size_exact}
use nazm.Passes.First.{Pass1State}
use nazm.Passes.Sizes.{data_bytes}
use nazm.Passes.Emission.{emit_data_directive_lem, data_directive_size_lem}
use nazm.Passes.Resolve.{RelocationSection}
use nazm.Passes.Output.{Pass2State, pass2_section_size, pass2_section_bytes, pass2_section_capacity}
use nazm.Passes.Second.{after_data, with_resolution, resolution_of, resolve_data, write_data}
use nazm.Passes.Layout.{grow, Fits}
use nazm.Passes.Layout.Written.{sizes_of, Writes}
use nazm.Passes.Data.{validate_data_directive}

-- What was written is what was expected.
as_expected :
    (written more : List ℕ)
    → length more < 2 ^ 31
    → ((length (written ++ more) - length written == to_unsigned 64 (pos (length more))) ≡ true)
      × (length (written ++ more) - length written ≡ length more)
as_expected written more small = ground (arith, length-append written more)

-- The comparison behind the bytes of a directive, in the two sections with bytes.
after_data-Writes :
    (section : SymbolSection) (st : Pass2State) (more : List ℕ)
    → st.current_section ≡ section
    → is_section section SymbolSection.data_section
        || is_section section SymbolSection.read_only_data
      ≡ true
    → length more < 2 ^ 31
    → Writes section (length more) (sizes_of st) (
        after_data section
          (pos (length more))
          (pass2_section_size section st)
          (true, pass2_section_bytes section st ++ more)
          st)
unfolding after_data
after_data-Writes SymbolSection.data_section st more here writable small =
    let (equal, same) = as_expected st.data_bytes more small in
    rw (equal, same)
      record {
        next = record st { data_bytes = st.data_bytes ++ more };
        size = length more;
        goes = refl;
        moves = here;
        writes =
            ap (λ (t : ℕ). record (sizes_of st) { data_section = t })
              (length-append st.data_bytes more);
        spans = refl;
      }
after_data-Writes SymbolSection.read_only_data st more here writable small =
    let (equal, same) = as_expected st.read_only_data_bytes more small in
    rw (equal, same)
      record {
        next = record st { read_only_data_bytes = st.read_only_data_bytes ++ more };
        size = length more;
        goes = refl;
        moves = here;
        writes =
            ap (λ (t : ℕ). record (sizes_of st) { read_only_data = t })
              (length-append st.read_only_data_bytes more);
        spans = refl;
      }
after_data-Writes SymbolSection.text st more here writable small = absurd (ground arith)
after_data-Writes SymbolSection.bss st more here writable small = absurd (ground arith)
after_data-Writes SymbolSection.unknown st more here writable small = absurd (ground arith)

not_negative : (n : ℕ) → ltb_ℤ (pos n) (pos 0) ≡ false
not_negative n = ground arith

-- The capacity of a section with bytes, and the test that it has some.
abbrev has_bytes : SymbolSection → Bool
has_bytes section =
    is_section section SymbolSection.data_section || is_section section SymbolSection.read_only_data

module _ (pass1 : Pass1State) (i : Instruction) (parsed : IsParsed i) (st : Pass2State) where
  bytes-Writes :
      (kind : DirectiveKind) (section : SymbolSection)
      → st.current_section ≡ section
      → has_bytes section ≡ true
      → validate_data_directive kind i.ops ≡ none
      → pass2_section_size section st
          + length (data_bytes kind i.ops (pass2_section_size section st))
        ≤ pass2_section_capacity pass1.offsets section
      → Writes section
          (length (data_bytes kind i.ops (pass2_section_size section st)))
          (sizes_of st)
          (write_data pass1 section kind i.ops st)
  unfolding write_data
  bytes-Writes kind SymbolSection.data_section here bytes valid room =
      let before = length st.data_bytes in
      let more = data_bytes kind i.ops before in
      let (size, small) = data_directive_size_lem i.ops parsed.0 parsed.1 before kind valid in
      let written =
        emit_data_directive_lem pass1.offsets.data_section kind i.ops st.data_bytes valid room in
      let resolved =
        with_resolution
          (resolve_data pass1.symtable kind RelocationSection.data_section before i.ops
            (resolution_of st))
          st in
      rw (size, not_negative (length more), written)
        (after_data-Writes SymbolSection.data_section resolved more here bytes small)
  bytes-Writes kind SymbolSection.read_only_data here bytes valid room =
      let before = length st.read_only_data_bytes in
      let more = data_bytes kind i.ops before in
      let (size, small) = data_directive_size_lem i.ops parsed.0 parsed.1 before kind valid in
      let written =
        emit_data_directive_lem pass1.offsets.read_only_data kind i.ops st.read_only_data_bytes
          valid room in
      let resolved =
        with_resolution
          (resolve_data pass1.symtable kind RelocationSection.read_only_data before i.ops
            (resolution_of st))
          st in
      rw (size, not_negative (length more), written)
        (after_data-Writes SymbolSection.read_only_data resolved more here bytes small)
  bytes-Writes kind SymbolSection.text here bytes valid room = absurd (ground arith)
  bytes-Writes kind SymbolSection.bss here bytes valid room = absurd (ground arith)
  bytes-Writes kind SymbolSection.unknown here bytes valid room = absurd (ground arith)

  -- Zero-initialised space is only counted.
  space-Writes :
      (kind : DirectiveKind)
      → st.current_section ≡ SymbolSection.bss
      → validate_data_directive kind i.ops ≡ none
      → st.bss_size + length (data_bytes kind i.ops st.bss_size) < 2 ^ 64
      → Writes SymbolSection.bss
          (length (data_bytes kind i.ops st.bss_size))
          (sizes_of st)
          (write_data pass1 SymbolSection.bss kind i.ops st)
  unfolding write_data add_size
  space-Writes kind here valid room =
      let before = st.bss_size in
      let n = length (data_bytes kind i.ops before) in
      let (size, small) = data_directive_size_lem i.ops parsed.0 parsed.1 before kind valid in
      rw (size, not_negative n)
        record {
          next = record st { bss_size = add_size before n };
          size = 0;
          goes = refl;
          moves = here;
          writes = ap (λ (t : ℕ). record (sizes_of st) { bss = t }) (add_size_exact before n room);
          spans = refl;
        }

  -- The line of a data directive that the first pass accepts.
  pub data-Writes :
      (kind : DirectiveKind) (section : SymbolSection)
      → st.current_section ≡ section
      → is_section section SymbolSection.text || is_section section SymbolSection.unknown ≡ false
      → validate_data_directive kind i.ops ≡ none
      → Fits
          (grow section
            (length (data_bytes kind i.ops (pass2_section_size section st)))
            (sizes_of st))
          pass1.offsets
      → pass1.offsets.bss < 2 ^ 64
      → Writes section
          (length (data_bytes kind i.ops (pass2_section_size section st)))
          (sizes_of st)
          (write_data pass1 section kind i.ops st)
  data-Writes kind SymbolSection.data_section here outside valid fits small =
      bytes-Writes kind SymbolSection.data_section here refl valid fits.1
  data-Writes kind SymbolSection.read_only_data here outside valid fits small =
      bytes-Writes kind SymbolSection.read_only_data here refl valid fits.2
  data-Writes kind SymbolSection.bss here outside valid fits small =
      space-Writes kind here valid (omega (arith, fits.3))
  data-Writes kind SymbolSection.text here outside valid fits small = absurd (ground arith)
  data-Writes kind SymbolSection.unknown here outside valid fits small = absurd (ground arith)
