-- ===== src/Unicode/Examples.antt =====
-- The UTF-8 theorems at a letter of a mnemonic, and runs of the decoder.
use nazm.Prelude.{
  ℕ, ◌+◌, ◌≤◌, ◌<◌, ◌≡◌, ◌↔◌, ◌⊎◌, ◌≢◌, inl, pos, negsuc, refl, true, List, [], ◌∷◌, length, arith,
}
use nazm.Unicode.Classes.{
  arabic_digit_value, is_ident_start, is_ident_continue, digit_values, ident_classes,
}
use nazm.Unicode.Utf8.{
  continuation_loop, sequence, minimum, utf8_next_codepoint, utf8_is_well_formed_at, walk_back,
  utf8_complete_prefix,
}
use nazm.Unicode.Utf8.Encoding.{IsScalar, utf8_encode, HoldsAt}
use nazm.Unicode.Utf8.RoundTrip.{next_codepoint-encode}
use nazm.Unicode.Utf8.WellFormed.{next_codepoint_progress, well_formed_iff}
use nazm.Unicode.Utf8.Prefix.{utf8_text, complete_prefix-encode}

-- A space, the letter U+0639 and the first byte of another letter.
abbrev text : List ℕ
text = 0x20 ∷ 0xD8 ∷ 0xB9 ∷ 0xD9 ∷ []

decode_letter : utf8_next_codepoint text 1 ≡ (0x0639, 3)
unfolding utf8_next_codepoint sequence continuation_loop minimum
decode_letter = refl

-- A surrogate and an overlong form are refused.
decode_surrogate : utf8_next_codepoint (0xED ∷ 0xA0 ∷ 0x80 ∷ []) 0 ≡ (0xFFFD, 1)
unfolding utf8_next_codepoint sequence continuation_loop minimum
decode_surrogate = refl

cut_letter : utf8_complete_prefix text ≡ 3
unfolding utf8_complete_prefix walk_back
cut_letter = refl

next_codepoint-encode_example :
    utf8_next_codepoint text 1 ≡ (0x0639, 1 + length (utf8_encode 0x0639))
unfolding utf8_encode
next_codepoint-encode_example =
    next_codepoint-encode text 1 (omega arith) 0x0639 (inl (omega arith)) (omega arith)

next_codepoint_progress_example :
    (1 < (utf8_next_codepoint text 1).1)
    × ((utf8_next_codepoint text 1).1 ≤ length text)
    × ((utf8_next_codepoint text 1).1 ≤ 1 + 4)
    × IsScalar (utf8_next_codepoint text 1).0
next_codepoint_progress_example = next_codepoint_progress text 1 (omega arith) (omega arith)

well_formed_iff_example :
    (utf8_is_well_formed_at text 3 ≡ true)
    ↔ ((cp : ℕ) × IsScalar cp × HoldsAt text 3 (utf8_encode cp))
well_formed_iff_example = well_formed_iff text 3 (omega arith) (omega arith)

complete_prefix-encode_example : utf8_complete_prefix text ≡ 3
unfolding utf8_encode utf8_text
complete_prefix-encode_example =
    complete_prefix-encode (0x20 ∷ 0x0639 ∷ []) 0x0642 1
      (inl (omega arith), (inl (omega arith), tt)) (inl (omega arith)) (omega arith)

digit_values_example :
    (arabic_digit_value 0x0663 ≡ pos 3) ↔ ((3 < 10) × ((0x0663 ≡ 0x0660 + 3) ⊎ (0x0663 ≡ b'0' + 3)))
digit_values_example = digit_values 0x0663 3

ident_classes_example :
    ((is_ident_continue 0x0663 ≡ true)
      ↔ ((is_ident_start 0x0663 ≡ true) ⊎ (arabic_digit_value 0x0663 ≢ negsuc 0)))
    × (¬ ((is_ident_start 0x0663 ≡ true) × (arabic_digit_value 0x0663 ≢ negsuc 0)))
ident_classes_example = ident_classes 0x0663
