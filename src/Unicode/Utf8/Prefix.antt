-- ===== src/Unicode/Utf8/Prefix.antt =====
-- `utf8_complete_prefix` of unicode/arabic.c on a text: it cuts off the part of a character at the end,
-- and nothing else.
use nazm.Prelude.{
  ℕ, zero, suc, ◌+◌, ◌-◌, ◌/◌, ◌%◌, ◌≤◌, ◌<◌, ◌≡◌, ◌⊎◌, refl, sym, ap, ◌∙◌, true, false, Bool-cases,
  inl, inr, List, [], ◌∷◌, ◌++◌, ltb, leb, ◌==◌, if◌then◌else◌, length, length-append, append_assoc,
  append-nil, take, bit_and, arith,
}
use nazm.Unicode.Utf8.{byte, walk_back, utf8_complete_prefix}
use nazm.Unicode.Utf8.Encoding.{IsScalar, utf8_encode}
use nazm.Unicode.Utf8.Steps.{is_continuation, continuation_test}

-- The bytes of a text.
unfoldable pub utf8_text : List ℕ → List ℕ
utf8_text [] = []
utf8_text (c ∷ cs) = utf8_encode c ++ utf8_text cs

abbrev pub AllScalar : List ℕ → Type 0
AllScalar [] = Unit
AllScalar (c ∷ cs) = IsScalar c × AllScalar cs

abbrev AllContinuation : List ℕ → Type 0
AllContinuation [] = Unit
AllContinuation (b ∷ bs) = (is_continuation b ≡ true) × AllContinuation bs

byte-append : (pre xs : List ℕ) (i k : ℕ) → k ≡ length pre + i → byte (pre ++ xs) k ≡ byte xs i
byte-append [] xs i k h = let same : k ≡ i = omega arith in ap (byte xs) same
byte-append (p ∷ pre) xs i zero h = absurd (omega arith)
byte-append (p ∷ pre) xs i (suc k) h = byte-append pre xs i k (omega arith)

byte-continuation :
    (bs : List ℕ) (i : ℕ) → AllContinuation bs → i < length bs → is_continuation (byte bs i) ≡ true
byte-continuation [] i all h = absurd (omega arith)
byte-continuation (b ∷ bs) zero all h = all.0
byte-continuation (b ∷ bs) (suc i) all h = byte-continuation bs i all.1 (omega arith)

-- A byte is masked as the walk masks it.
is_masked : (b : ℕ) → is_continuation b ≡ true → (bit_and b 0xC0 == 0x80) ≡ true
is_masked b h = continuation_test b (ground arith) ∙ h

is_unmasked : (b : ℕ) → b < 256 → is_continuation b ≡ false → (bit_and b 0xC0 == 0x80) ≡ false
is_unmasked b small h = continuation_test b small ∙ h

module _ (src : List ℕ) where
  walk_back-stop :
      (steps end : ℕ)
      → (bit_and (byte src (end - 1)) 0xC0 == 0x80) ≡ false
      → walk_back steps src end ≡ end
  unfolding walk_back
  walk_back-stop zero end h = refl
  walk_back-stop (suc steps) end h = ground arith

  walk_back-step :
      (steps end : ℕ)
      → 0 < end
      → (bit_and (byte src (end - 1)) 0xC0 == 0x80) ≡ true
      → walk_back (suc steps) src end ≡ walk_back steps src (end - 1)
  unfolding walk_back
  walk_back-step steps end inside h = ground arith

  -- Over `n` continuation bytes, to the byte behind another one.
  walk_back-run :
      (steps n end : ℕ)
      → n ≤ steps
      → n < end
      → ((k : ℕ) → k < end → end ≤ k + n → is_continuation (byte src k) ≡ true)
      → (bit_and (byte src (end - 1 - n)) 0xC0 == 0x80) ≡ false
      → walk_back steps src end ≡ end - n
  walk_back-run steps zero end few inside run stop =
      let same : end - 1 - 0 ≡ end - 1 = omega arith in
      walk_back-stop steps end (rw same at stop) ∙ (omega arith)
  walk_back-run zero (suc n) end few inside run stop = absurd (omega arith)
  walk_back-run (suc steps) (suc n) end few inside run stop =
      let here = is_masked (byte src (end - 1)) (run (end - 1) (omega arith) (omega arith)) in
      let further : end - 1 - 1 - n ≡ end - 1 - suc n = omega arith in
      walk_back-step steps end (omega arith) here
      ∙ walk_back-run steps n (end - 1) (omega arith) (omega arith)
          (λ k below above. run k (omega arith) (omega arith)) (rw further stop)
      ∙ (omega arith)

-- The length of a sequence, by its first byte.
abbrev needed : ℕ → ℕ
needed b0 = if leb 0xF0 b0 then 4 else if leb 0xE0 b0 then 3 else if leb 0xC0 b0 then 2 else 1

complete_prefix_by :
    (src : List ℕ) (lead : ℕ)
    → walk_back 3 src (length src) ≡ lead + 1
    → utf8_complete_prefix src
      ≡ (if ltb (length src - lead) (needed (byte src lead)) then lead else length src)
unfolding utf8_complete_prefix
complete_prefix_by src lead h =
    let back : lead + 1 - 1 ≡ lead = omega arith in rw (h, back) (ground arith)

-- A first byte and continuation bytes at the end.
module _ (pre : List ℕ) (b : ℕ) (conts : List ℕ) (small : b < 256)
    (lead : is_continuation b ≡ false) (all : AllContinuation conts) (few : length conts ≤ 3) where
  abbrev src : List ℕ
  src = pre ++ (b ∷ conts)

  length-src : length src ≡ length pre + 1 + length conts
  length-src = let counted = length-append pre (b ∷ conts) in omega arith

  at_lead : byte src (length pre) ≡ b
  at_lead = byte-append pre (b ∷ conts) 0 (length pre) (omega arith)

  behind_lead :
      (k : ℕ) → k < length src → length src ≤ k + length conts → is_continuation (byte src k) ≡ true
  behind_lead k below above =
      let counted = length-src in
      let i = k - length pre - 1 in
      let place = byte-append pre (b ∷ conts) (suc i) k (omega arith) in
      rw place (byte-continuation conts i all (omega arith))

  walked : walk_back 3 src (length src) ≡ length pre + 1
  walked =
      let counted = length-src in
      let place : length src - 1 - length conts ≡ length pre = omega arith in
      let stop : (bit_and (byte src (length src - 1 - length conts)) 0xC0 == 0x80) ≡ false =
        rw (place, at_lead) (is_unmasked b small lead) in
      walk_back-run src 3 (length conts) (length src) few (omega arith) behind_lead stop
      ∙ (omega arith)

  cut :
      utf8_complete_prefix src
      ≡ (if ltb (1 + length conts) (needed b) then length pre else length src)
  cut =
      let counted = length-src in
      let left : length src - length pre ≡ 1 + length conts = omega arith in
      let by = complete_prefix_by src (length pre) walked in rw (left, at_lead) at by

-- What the encoding of a character is: a first byte that tells the length, and continuation bytes.
record IsSequence (bytes : List ℕ) : Type 0 where
  first : ℕ
  conts : List ℕ
  is : bytes ≡ first ∷ conts
  small : first < 256
  lead : is_continuation first ≡ false
  all : AllContinuation conts
  few : length conts ≤ 3
  told : needed first ≡ 1 + length conts

encode-IsSequence : (cp : ℕ) → IsScalar cp → IsSequence (utf8_encode cp)
unfolding utf8_encode
encode-IsSequence cp scalar = elim (Bool-cases (ltb cp 0x80)) [
  | inl one ↦ rw one record {
    first = cp;
    conts = [];
    is = refl;
    small = ground arith;
    lead = ground arith;
    all = tt;
    few = omega arith;
    told = ground arith;
  }
  | inr more ↦ elim (Bool-cases (ltb cp 0x800)) [
    | inl two ↦
        rw (more, two)
          record {
            first = 0xC0 + cp / 64;
            conts = (0x80 + cp % 64) ∷ [];
            is = refl;
            small = ground arith;
            lead = ground arith;
            all = (ground arith, tt);
            few = omega arith;
            told = ground arith;
          }
    | inr longer ↦ elim (Bool-cases (ltb cp 0x1_0000)) [
      | inl three ↦
          rw (more, longer, three)
            record {
              first = 0xE0 + cp / 4096;
              conts = (0x80 + cp / 64 % 64) ∷ (0x80 + cp % 64) ∷ [];
              is = refl;
              small = ground arith;
              lead = ground arith;
              all = (ground arith, (ground arith, tt));
              few = omega arith;
              told = ground arith;
            }
      | inr four ↦
          rw (more, longer, four)
            record {
              first = 0xF0 + cp / 26_2144;
              conts = (0x80 + cp / 4096 % 64) ∷ (0x80 + cp / 64 % 64) ∷ (0x80 + cp % 64) ∷ [];
              is = refl;
              small = ground arith;
              lead = ground arith;
              all = (ground arith, (ground arith, (ground arith, tt)));
              few = omega arith;
              told = ground arith;
            }
    ]
  ]
]

AllContinuation-take : (k : ℕ) (bs : List ℕ) → AllContinuation bs → AllContinuation (take k bs)
AllContinuation-take zero bs all = tt
AllContinuation-take (suc k) [] all = tt
AllContinuation-take (suc k) (b ∷ bs) all = (all.0, AllContinuation-take k bs all.1)

length-take : (k : ℕ) (bs : List ℕ) → k ≤ length bs → length (take k bs) ≡ k
length-take zero bs h = refl
length-take (suc k) [] h = absurd (omega arith)
length-take (suc k) (b ∷ bs) h = let rest = length-take k bs (omega arith) in omega arith

-- A text has a last character, if it has one.
last_character :
    (cs : List ℕ)
    → AllScalar cs
    → (cs ≡ []) ⊎ ((pre : List ℕ) × (c : ℕ) × IsScalar c × (utf8_text cs ≡ pre ++ utf8_encode c))
unfolding utf8_text
last_character [] all = inl refl
last_character (c ∷ cs) (scalar, all) = elim (last_character cs all) [
  | inl none_there ↦ inr ([], c, scalar, rw none_there (append-nil (utf8_encode c)))
  | inr (pre, d, last, ends) ↦ inr (
    utf8_encode c ++ pre,
    d,
    last,
    ap (λ t. utf8_encode c ++ t) ends ∙ sym (append_assoc (utf8_encode c) pre (utf8_encode d)),
  )
]

-- Behind a whole character nothing is cut.
whole_character :
    (pre : List ℕ) (c : ℕ)
    → IsScalar c
    → utf8_complete_prefix (pre ++ utf8_encode c) ≡ length (pre ++ utf8_encode c)
whole_character pre c scalar =
    let s = encode-IsSequence c scalar in
    let enough : ltb (1 + length s.conts) (needed s.first) ≡ false =
      let told = s.told in ground arith in
    rw s.is (cut pre s.first s.conts s.small s.lead s.all s.few ∙ rw enough refl)

whole_text :
    (cs : List ℕ) → AllScalar cs → utf8_complete_prefix (utf8_text cs) ≡ length (utf8_text cs)
unfolding utf8_text utf8_complete_prefix walk_back
whole_text cs all = elim (last_character cs all) [
  | inl none_there ↦ rw none_there refl
  | inr (pre, c, scalar, ends) ↦ rw ends (whole_character pre c scalar)
]

-- Take the encodings of any scalar values, and behind them the first `k` bytes of the encoding of one
-- more, where `k` is less than its length and can be 0. The complete prefix is exactly the encodings:
-- a character that is not there to its end is cut off whole, and nothing is cut off a text that ends
-- with a whole character.
pub complete_prefix-encode :
    (cs : List ℕ) (c k : ℕ)
    → AllScalar cs
    → IsScalar c
    → k < length (utf8_encode c)
    → utf8_complete_prefix (utf8_text cs ++ take k (utf8_encode c)) ≡ length (utf8_text cs)
complete_prefix-encode cs c zero all scalar part =
    rw (append-nil (utf8_text cs)) (whole_text cs all)
complete_prefix-encode cs c (suc k) all scalar part =
    let s = encode-IsSequence c scalar in
    let inside : suc k < 1 + length s.conts = let held = ap length s.is in omega arith in
    let counted = length-take k s.conts (omega arith) in
    let short : ltb (1 + length (take k s.conts)) (needed s.first) ≡ true =
      let told = s.told in ground arith in
    let few = s.few in
    rw s.is (
      cut (utf8_text cs) s.first (take k s.conts) s.small s.lead
        (AllContinuation-take k s.conts s.all) (omega arith)
      ∙ rw short refl)
