-- ===== src/Record/Units.antt =====
-- A balance as text shows the balance: whole units, a dot and six digits.
use poulpy_eth_pir_demo.Base.{ℕ, ◌/◌, ◌%◌, ◌^◌, ◌≡◌, ap, some, inl, length, arith}
use poulpy_eth_pir_demo.Base.Bytes.{IsU128}
use poulpy_eth_pir_demo.Text.{Text, to_decimal, to_decimal_padded, parse_number, split_once}
use poulpy_eth_pir_demo.Text.Decimal.{
  to_decimal-IsDigit, parse_number-to_decimal, parse_number-to_decimal_padded,
  length-to_decimal_padded, split_once-append, digits_without,
}
use poulpy_eth_pir_demo.Record.{format_units}

-- A balance below 2^128 is shown as two numbers with a dot between them: the text before the first
-- dot reads as the balance divided by a million, the text behind it has six characters and reads as
-- what is left over.
pub format_units_lem :
    (v : ℕ)
    → IsU128 v
    → (whole : Text) × (rest : Text) × (split_once b'.' (format_units v) ≡ (whole, some rest))
      × (parse_number (2 ^ 128) whole ≡ some (v / 1000000))
      × (length rest ≡ 6)
      × (parse_number (2 ^ 128) rest ≡ some (v % 1000000))
unfolding format_units
format_units_lem v h = (
  to_decimal (v / 1000000),
  to_decimal_padded 6 (v % 1000000),
  split_once-append b'.' (to_decimal (v / 1000000)) _
      (digits_without b'.' _ (inl (omega arith)) (to_decimal-IsDigit (v / 1000000))),
  parse_number-to_decimal (2 ^ 128) (v / 1000000) (omega arith),
  length-to_decimal_padded 5 (v % 1000000) (omega arith),
  parse_number-to_decimal_padded (2 ^ 128) 6 (v % 1000000) (omega arith),
)

-- Two balances below 2^128 that are shown alike are the same.
pub format_units-injective :
    (v w : ℕ) → IsU128 v → IsU128 w → format_units v ≡ format_units w → v ≡ w
format_units-injective v w hv hw e =
    let (whole, rest, split, front, long, back) = format_units_lem v hv in
    let (whole', rest', split', front', long', back') = format_units_lem w hw in
    let same : split_once b'.' (format_units v) ≡ split_once b'.' (format_units w) =
      ap (split_once b'.') e in
    let q : v / 1000000 ≡ w / 1000000 = cc in
    let r : v % 1000000 ≡ w % 1000000 = cc in omega (arith, q, r)
