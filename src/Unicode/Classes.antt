-- ===== src/Unicode/Classes.antt =====
-- The character classes of unicode/arabic.c.
use nazm.Prelude.{
  ℕ, ◌+◌, ◌-◌, ◌<◌, ◌≡◌, ◌↔◌, ◌⊎◌, ◌≢◌, Bool, true, false, ◌&&◌, ◌||◌, leb, ◌==◌, if◌then◌else◌, ℤ,
  pos, negsuc, arith,
}

unfoldable pub is_arabic_letter : ℕ → Bool
is_arabic_letter cp =
    if cp == 0x060C || cp == 0x061B || cp == 0x061F || cp == 0x0640
    then false
    else if leb 0x0660 cp && leb cp 0x066F
    then false
    else leb 0x0600 cp && leb cp 0x06FF
      || leb 0x0750 cp && leb cp 0x077F
      || leb 0xFB50 cp && leb cp 0xFDFF
      || leb 0xFE70 cp && leb cp 0xFEFF

unfoldable pub nazm_is_arabic_digit : ℕ → Bool
nazm_is_arabic_digit cp = leb 0x0660 cp && leb cp 0x0669

unfoldable pub arabic_digit_value : ℕ → ℤ
unfolding nazm_is_arabic_digit
arabic_digit_value cp =
    if nazm_is_arabic_digit cp
    then pos (cp - 0x0660)
    else if leb b'0' cp && leb cp b'9'
    then pos (cp - b'0')
    else negsuc 0

unfoldable pub is_ident_start : ℕ → Bool
unfolding is_arabic_letter
is_ident_start cp = is_arabic_letter cp || cp == b'_'

unfoldable pub is_ident_continue : ℕ → Bool
unfolding is_arabic_letter nazm_is_arabic_digit
is_ident_continue cp =
    is_arabic_letter cp || nazm_is_arabic_digit cp || leb b'0' cp && leb cp b'9' || cp == b'_'

-- The value of a character is d exactly when d is below 10 and the character is the digit d of the
-- Arabic block or of ASCII.
pub digit_values :
    (cp d : ℕ)
    → (arabic_digit_value cp ≡ pos d) ↔ ((d < 10) × ((cp ≡ 0x0660 + d) ⊎ (cp ≡ b'0' + d)))
unfolding arabic_digit_value
digit_values cp d = ground arith

-- An identifier goes on with a character exactly when the character may start one or is a digit
-- with a value, and no character is both.
pub ident_classes :
    (cp : ℕ)
    → ((is_ident_continue cp ≡ true)
        ↔ ((is_ident_start cp ≡ true) ⊎ (arabic_digit_value cp ≢ negsuc 0)))
      × (¬ ((is_ident_start cp ≡ true) × (arabic_digit_value cp ≢ negsuc 0)))
unfolding is_ident_continue is_ident_start arabic_digit_value
ident_classes cp = ground arith
