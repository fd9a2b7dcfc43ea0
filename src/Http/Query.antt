-- ===== src/Http/Query.antt =====
-- src/http/mod.rs: the `from` parameter of the tail route.
pub mod From
use poulpy_eth_pir_demo.Base.{
  ℕ, zero, suc, ◌+◌, ◌-◌, ◌*◌, ◌^◌, ◌&&◌, Option, none, some, List, [], ◌∷◌, length, nat_eq, leb,
  ltb, if◌then◌else◌,
}
use poulpy_eth_pir_demo.Base.Equality.{◌==◌, byte_list_eq}
use poulpy_eth_pir_demo.Text.{Text, parse_number, split_once}

-- "from"
abbrev pub from_key : Text
from_key = b'f' ∷ b'r' ∷ b'o' ∷ b'm' ∷ []

abbrev pub or_empty : Option Text → Text
or_empty none = []
or_empty (some s) = s

-- A pair with the key decides; an empty pair has another key.
unfoldable pub parse_pair : Text → Option (Option ℕ)
parse_pair pair =
    let (key, value) = split_once b'=' pair in
    if key == from_key then some (parse_number (2 ^ 64) (or_empty value)) else none

-- The text has at most as many pairs as characters and one more.
unfoldable pub parse_pairs : ℕ → Text → Option ℕ
parse_pairs zero raw = some 0
parse_pairs (suc fuel) raw =
    let (pair, rest) = split_once b'&' raw in
    let more = parse_pairs fuel (or_empty rest) in
    elim (parse_pair pair) [
      | some value ↦ value
      | none ↦ elim rest [ none ↦ some 0 | some tail ↦ more ]
    ]

-- `none` is a bad request.
unfoldable pub parse_from : Option Text → Option ℕ
parse_from none = some 0
parse_from (some raw) = parse_pairs (suc (length raw)) raw
