-- ===== src/Target/Parse.antt =====
-- A number given as a target is read as that block.
use poulpy_eth_pir_demo.Base.{
  ℕ, ◌<◌, ◌≤◌, ◌^◌, ◌≡◌, refl, ap, ◌∙◌, some, [], ◌∷◌, length, All, arith, false,
}
use poulpy_eth_pir_demo.Base.Equality.{◌==◌, byte_list_eq, bytes_eq}
use poulpy_eth_pir_demo.Text.{
  Text, ascii, to_decimal, trim, trim_start, trim_end, is_whitespace, to_ascii_lowercase,
}
use poulpy_eth_pir_demo.Text.Decimal.{
  IsDigit, to_decimal-IsDigit, length-to_decimal, parse_number-to_decimal,
}
use poulpy_eth_pir_demo.Target.{number, number_of, from_str}

trim_end-digits : (text : Text) → All IsDigit text → trim_end text ≡ text
unfolding trim_end is_whitespace
trim_end-digits [] h = refl
trim_end-digits (c ∷ text) (d, h) = ground (arith, d, trim_end-digits text h)

trim-digits : (text : Text) → All IsDigit text → trim text ≡ text
unfolding trim trim_start is_whitespace
trim-digits [] h = unfold trim_end in refl
trim-digits (c ∷ text) (d, h) = ground (arith, d, trim_end-digits (c ∷ text) (d, h))

lowercase-digits : (text : Text) → All IsDigit text → to_ascii_lowercase text ≡ text
unfolding to_ascii_lowercase
lowercase-digits [] h = refl
lowercase-digits (c ∷ text) (d, h) = ground (arith, d, lowercase-digits text h)

-- A text that begins with a digit is none that begins with a letter.
no_word :
    (text : Text) (c : ℕ) (cs : Text)
    → All IsDigit text
    → 1 ≤ length text
    → b'9' < c
    → (text == (c ∷ cs)) ≡ false
unfolding bytes_eq
no_word [] c cs h p q = refl
no_word (d ∷ text) c cs (digit, h) p q = ground (arith, digit)

-- A target given as a number of 64 bits in decimal is read as that number.
pub from_str-to_decimal : (n : ℕ) → n < 2 ^ 64 → from_str (to_decimal n) ≡ some (number n)
unfolding from_str number_of
from_str-to_decimal n h =
    let text : Text = to_decimal n in
    let digits : All IsDigit text = to_decimal-IsDigit n in
    let same : to_ascii_lowercase (trim text) ≡ text =
      ap to_ascii_lowercase (trim-digits text digits) ∙ lowercase-digits text digits in
    let not_finalized : (text == ascii "finalized") ≡ false =
      no_word text b'f' (ascii "inalized") digits (length-to_decimal n) (omega arith) in
    let not_latest : (text == ascii "latest") ≡ false =
      no_word text b'l' (ascii "atest") digits (length-to_decimal n) (omega arith) in
    let not_head : (text == ascii "head") ≡ false =
      no_word text b'h' (ascii "ead") digits (length-to_decimal n) (omega arith) in
    rw (same, not_finalized, not_latest, not_head, parse_number-to_decimal (2 ^ 64) n h) refl
