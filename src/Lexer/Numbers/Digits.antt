-- ===== src/Lexer/Numbers/Digits.antt =====
-- The parsing loops of lexer/lexer.c read the digits that stand at the cursor, and compute their
-- value when it has 64 bits.
use nazm.Prelude.{
  ℕ, ◌+◌, ◌-◌, ◌*◌, ◌/◌, ◌≤◌, ◌<◌, ◌≡◌, ◌⊎◌, ◌↔◌, refl, ap, ◌∙◌, Bool, true, false, ◌||◌, List, [],
  ◌∷◌, ltb, length, Bool-cases, inl, inr, ℤ, pos, arith,
}
use nazm.Unicode.Utf8.{utf8_next_codepoint, utf8_peek_codepoint}
use nazm.Unicode.Classes.{arabic_digit_value}
use nazm.Lexer.Cursor.{Cursor, skip_cp}
use nazm.Lexer.Numbers.{
  uint64_max, hex_digit_value, binary_digit_value, decimal_digit_value, append_digit, Scan,
  take_digit,
}

-- The digits of the bases, as the characters that are written for them: hexadecimal digits in small
-- or capital letters, decimal digits of ASCII or Arabic.
abbrev pub HexDigit : ℕ → ℕ → Type 0
HexDigit cp d =
    ((d < 10) × (cp ≡ b'0' + d))
    ⊎ ((10 ≤ d) × (d < 16) × ((cp ≡ b'a' + (d - 10)) ⊎ (cp ≡ b'A' + (d - 10))))

abbrev pub BinaryDigit : ℕ → ℕ → Type 0
BinaryDigit cp d = ((d ≡ 0) × (cp ≡ b'0')) ⊎ ((d ≡ 1) × (cp ≡ b'1'))

abbrev pub DecimalDigit : ℕ → ℕ → Type 0
DecimalDigit cp d = (d < 10) × ((cp ≡ b'0' + d) ⊎ (cp ≡ 0x0660 + d))

-- From `start` up to `end` the source holds the digits `ds`, and no digit follows.
pub data HoldsDigits (src : List ℕ) (Digit : ℕ → ℕ → Type 0) : ℕ → List ℕ → ℕ → Type 0 where
  source_ends : (start : ℕ) → length src ≤ start → HoldsDigits src Digit start [] start
  no_digit :
      (start : ℕ)
      → ((d : ℕ) → ¬ Digit (utf8_peek_codepoint src start) d)
      → HoldsDigits src Digit start [] start
  digit :
      (start d end : ℕ) (ds : List ℕ)
      → start < length src
      → Digit (utf8_peek_codepoint src start) d
      → HoldsDigits src Digit (utf8_next_codepoint src start).1 ds end
      → HoldsDigits src Digit start (d ∷ ds) end

-- The value of digits behind a value.
unfoldable pub value_after : ℕ → ℕ → List ℕ → ℕ
value_after base v [] = v
value_after base v (d ∷ ds) = value_after base (v * base + d) ds

abbrev pub some_digit : List ℕ → Bool
some_digit [] = false
some_digit (d ∷ ds) = true

-- A base with its digits, and the function of the code that reads one.
pub record IsBase (base : ℕ) (digit_value : ℕ → ℤ) (Digit : ℕ → ℕ → Type 0) : Type 0 where
  pub fitting :
      (v d : ℕ) → d < base → (ltb ((uint64_max - d) / base) v ≡ false) ↔ (v * base + d ≤ uint64_max)
  pub grows : (v d : ℕ) → v ≤ v * base + d
  pub below : (cp d : ℕ) → digit_value cp ≡ pos d → d < base
  pub reads : (cp d : ℕ) → (digit_value cp ≡ pos d) ↔ Digit cp d

pub hex_IsBase : IsBase 16 hex_digit_value HexDigit
unfolding hex_digit_value
hex_IsBase = record {
  fitting = λ v d h. ground arith;
  grows = λ v d. omega arith;
  below = λ cp d h. ground arith;
  reads = λ cp d. (ground arith, ground arith);
}

pub binary_IsBase : IsBase 2 binary_digit_value BinaryDigit
unfolding binary_digit_value
binary_IsBase = record {
  fitting = λ v d h. ground arith;
  grows = λ v d. omega arith;
  below = λ cp d h. ground arith;
  reads = λ cp d. (ground arith, ground arith);
}

pub decimal_IsBase : IsBase 10 decimal_digit_value DecimalDigit
unfolding decimal_digit_value arabic_digit_value
decimal_IsBase = record {
  fitting = λ v d h. ground arith;
  grows = λ v d. omega arith;
  below = λ cp d h. ground arith;
  reads = λ cp d. (ground arith, ground arith);
}

or_true : (b : Bool) → (b || true) ≡ true
or_true true = refl
or_true false = refl

pub skip_cp-position :
    (src : List ℕ) (c : Cursor) → (skip_cp src c).position ≡ (utf8_next_codepoint src c.position).1
unfolding skip_cp
skip_cp-position src c = ground arith

-- What a loop leaves when it starts with `s` and reads `ds`.
pub record Reads (base : ℕ) (s : Scan) (ds : List ℕ) (end : Scan) : Type 0 where
  pub got : end.got ≡ (s.got || some_digit ds)
  pub fits : (end.fits ≡ true) ↔ ((s.fits ≡ true) × (value_after base s.val ds ≤ uint64_max))
  pub val : end.fits ≡ true → end.val ≡ value_after base s.val ds

module _ (base : ℕ) (digit_value : ℕ → ℤ) (Digit : ℕ → ℕ → Type 0)
    (is_base : IsBase base digit_value Digit) where
  value_after-≤ : (v : ℕ) (ds : List ℕ) → v ≤ value_after base v ds
  unfolding value_after
  value_after-≤ v [] = omega arith
  value_after-≤ v (d ∷ ds) = omega (arith, is_base.grows v d, value_after-≤ (v * base + d) ds)

  pub stop-Reads : (s : Scan) → s.val ≤ uint64_max → Reads base s [] s
  unfolding value_after
  stop-Reads s h = record { got = ground arith; fits = (λ f. (f, h), λ p. p.0); val = λ f. refl }

  module _ (src : List ℕ) (s : Scan) (d : ℕ) where
    digit_within :
        d < base
        → ltb ((uint64_max - d) / base) s.val ≡ false
        → ((take_digit src base d s).val ≡ s.val * base + d)
          × ((take_digit src base d s).fits ≡ s.fits)
    unfolding take_digit append_digit
    digit_within h within =
        let bound = (is_base.fitting s.val d h).0 within in rw within (omega arith, refl)

    digit_over : ltb ((uint64_max - d) / base) s.val ≡ true → (take_digit src base d s).fits ≡ false
    unfolding take_digit append_digit
    digit_over over = rw over refl

    digit_got : (take_digit src base d s).got ≡ true
    unfolding take_digit
    digit_got = refl

    pub digit_position : (take_digit src base d s).cursor ≡ skip_cp src s.cursor
    unfolding take_digit
    digit_position = refl

    pub digit_bound : d < base → s.val ≤ uint64_max → (take_digit src base d s).val ≤ uint64_max
    unfolding take_digit append_digit
    digit_bound h v = elim (Bool-cases (ltb ((uint64_max - d) / base) s.val)) [
      | inl over ↦ rw over v
      | inr within ↦ rw within (omega arith)
    ]

    pub take_digit-Reads :
        (ds : List ℕ) (end : Scan)
        → d < base
        → Reads base (take_digit src base d s) ds end
        → Reads base s (d ∷ ds) end
    unfolding value_after
    take_digit-Reads ds end h r = elim (Bool-cases (ltb ((uint64_max - d) / base) s.val)) [
      | inl over ↦
          let lost = digit_over over in
          let never : (end.fits ≡ true) → ⊥ = λ f. absurd (ground (arith, (r.fits.0 f).0)) in
          record {
            got = r.got ∙ rw (digit_got, or_true s.got) refl;
            fits = (
              λ f. absurd (never f),
              λ p.
                  let within =
                    (is_base.fitting s.val d h).1
                      (omega (arith, p.1, value_after-≤ (s.val * base + d) ds)) in
                  absurd (ground arith),
            );
            val = λ f. absurd (never f);
          }
      | inr within ↦
          let (v, f) = digit_within h within in
          record {
            got = r.got ∙ rw (digit_got, or_true s.got) refl;
            fits = rw (v, f) at r.fits;
            val = λ t. r.val t ∙ ap (λ x. value_after base x ds) v;
          }
    ]
