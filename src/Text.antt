-- ===== src/Text.antt =====
-- Texts as the standard library reads and writes them: numbers in decimal (`Display`, `parse`),
-- `split_once`, `trim` and a minimal width. A text is the list of its characters, all of them ASCII.
pub mod Decimal
pub mod Filled
use Prim.Native.Char.{code}
use Prim.Native.String.{String}
use poulpy_eth_pir_demo.Base.{
  ℕ, zero, suc, ◌+◌, ◌-◌, ◌*◌, ◌/◌, ◌%◌, ◌&&◌, ◌||◌, Bool, Option, none, some, List, [], ◌∷◌, ◌++◌,
  length, replicate, nat_eq, leb, ltb, if◌then◌else◌,
}

abbrev pub Text : Type 0
Text = List ℕ

-- A text of the source.
abbrev pub ascii : String → Text
ascii String.[] = []
ascii (String.◌∷◌ letter text) = code letter ∷ ascii text

unfoldable pub to_ascii_lowercase : Text → Text
to_ascii_lowercase [] = []
to_ascii_lowercase (c ∷ cs) =
    (if leb b'A' c && leb c b'Z' then c + 32 else c) ∷ to_ascii_lowercase cs

-- The decimal digits of a number, highest first, and none of 0. The number itself is fuel enough.
unfoldable pub digits_fuel : ℕ → ℕ → Text
digits_fuel zero n = []
digits_fuel (suc fuel) zero = []
digits_fuel (suc fuel) (suc n) = digits_fuel fuel (suc n / 10) ++ ((b'0' + suc n % 10) ∷ [])

-- `{}` of a number.
unfoldable pub to_decimal : ℕ → Text
to_decimal zero = b'0' ∷ []
to_decimal (suc n) = digits_fuel (suc n) (suc n)

-- `{:0w}` of a number.
unfoldable pub to_decimal_padded : ℕ → ℕ → Text
to_decimal_padded width n =
    let digits = to_decimal n in replicate (width - length digits) b'0' ++ digits

-- `parse` of an unsigned number below a bound: digits, at least one, after a `+` or not; `none` if
-- there is something else or the value is not below the bound.
unfoldable pub parse_digits : ℕ → Text → ℕ → Option ℕ
parse_digits bound [] n = some n
parse_digits bound (c ∷ cs) n =
    let next = n * 10 + (c - b'0') in
    let rest = parse_digits bound cs next in
    if leb b'0' c && leb c b'9' && ltb next bound then rest else none

unfoldable pub parse_number : ℕ → Text → Option ℕ
parse_number bound [] = none
parse_number bound (c ∷ []) = parse_digits bound (c ∷ []) 0
parse_number bound (c ∷ d ∷ cs) =
    if nat_eq c b'+' then parse_digits bound (d ∷ cs) 0 else parse_digits bound (c ∷ d ∷ cs) 0

-- The text up to the first separator, and what comes after it, if there is one.
unfoldable pub split_once : ℕ → Text → Text × Option Text
split_once sep [] = ([], none)
split_once sep (c ∷ cs) =
    let (front, rest) = split_once sep cs in
    if nat_eq c sep then ([], some cs) else (c ∷ front, rest)

-- Tab to carriage return, and the space.
unfoldable pub is_whitespace : ℕ → Bool
is_whitespace c = (leb 9 c && leb c 13) || nat_eq c 32

unfoldable pub trim_start : Text → Text
trim_start [] = []
trim_start (c ∷ cs) = let rest = trim_start cs in if is_whitespace c then rest else c ∷ cs

unfoldable pub trim_end : Text → Text
trim_end [] = []
trim_end (c ∷ cs) =
    let rest = trim_end cs in if is_whitespace c && nat_eq (length rest) 0 then [] else c ∷ rest

unfoldable pub trim : Text → Text
trim s = trim_end (trim_start s)

-- `{:>w}` and `{:<w}` of a text.
unfoldable pub pad_left : ℕ → Text → Text
pad_left width s = replicate (width - length s) 32 ++ s

unfoldable pub pad_right : ℕ → Text → Text
pad_right width s = s ++ replicate (width - length s) 32
