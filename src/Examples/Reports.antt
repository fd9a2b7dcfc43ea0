-- ===== src/Examples/Reports.antt =====
-- Runs of the texts and of the reports on a snapshot.
use poulpy_eth_pir_demo.Base.{
  ℕ, List, ◌-◌, ◌+◌, ◌/◌, ◌%◌, ◌^◌, ◌≡◌, refl, none, some, [], ◌∷◌, ◌++◌, length, take, arith, ap,
  true, false, Bool-cases, inl, inr, ◌⊎◌, if◌then◌else◌,
}
use poulpy_eth_pir_demo.Base.Equality.{◌==◌, byte_list_eq, bytes_eq}
use poulpy_eth_pir_demo.Base.Table
use poulpy_eth_pir_demo.Text.{
  Text, ascii, parse_number, split_once, pad_left, to_decimal, to_decimal_padded, digits_fuel,
}
use poulpy_eth_pir_demo.Tokens.{Address}
use poulpy_eth_pir_demo.Record.{Entry, format_units}
use poulpy_eth_pir_demo.Record
use poulpy_eth_pir_demo.Record.Units.{format_units_lem}
use poulpy_eth_pir_demo.Balances.{BalanceMap, get}
use poulpy_eth_pir_demo.Balances.Invariant.{HoldsBalances}
use poulpy_eth_pir_demo.Inspect.{sample_loop, from_map}
use poulpy_eth_pir_demo.Inspect.Shown.{holding, print_rows, sample_loop-take}
use poulpy_eth_pir_demo.Inspect.Counts.{IsOldest, IsChange, from_map-counts, from_map-IsOldest}
use poulpy_eth_pir_demo.Http.Query.{parse_from}
use poulpy_eth_pir_demo.Http.Query.From.{from_pair, joined, behind, parse_from-joined}
use poulpy_eth_pir_demo.Report.{found, token_balance, report_text, line_of}
use poulpy_eth_pir_demo.Report.Read.{to_json-injective}
use poulpy_eth_pir_demo.Progress.{Progress, sample}
use poulpy_eth_pir_demo.Publish.Directory.{Directory, directory_of, mphf_bytes, tail_bytes}
use poulpy_eth_pir_demo.Http.Routes.{status, status_body, age_text}
use poulpy_eth_pir_demo.Http.Routes.Read.{sizes, status-injective}
use poulpy_eth_pir_demo.Examples.Records.{alice, bob, some_entry}

format_units_lem_example :
    (whole : Text) × (rest : Text) × (split_once b'.' (format_units 1234567) ≡ (whole, some rest))
    × (parse_number (2 ^ 128) whole ≡ some (1234567 / 1000000))
    × (length rest ≡ 6)
    × (parse_number (2 ^ 128) rest ≡ some (1234567 % 1000000))
format_units_lem_example = format_units_lem 1234567 (omega arith)

-- "x=1&&from=7&from=8"
parse_from-joined_example :
    parse_from
      (some (joined (ascii "x=1" ∷ [] ∷ []) (from_pair 7 ++ behind (some (ascii "from=8")))))
    ≡ some 7
unfolding split_once
parse_from-joined_example =
    parse_from-joined (ascii "x=1" ∷ [] ∷ []) 7 (some (ascii "from=8"))
      ((omega arith, λ h. omega (arith, ap length h)), ((tt, λ h. omega (arith, ap length h)), tt))
      (omega arith)

abbrev two_rows : BalanceMap
two_rows = record { inner = (alice, some_entry) ∷ (bob, some_entry) ∷ []; cursor = 21000000 }

has_balance : (e : Entry) → some_entry ≡ e → Record.is_zero e ≡ false
unfolding Record.is_zero
has_balance e h = rw (← h) refl

two_rows-HoldsBalances : HoldsBalances two_rows
unfolding Table.get bytes_eq get
two_rows-HoldsBalances = record {
  once = (refl, (refl, tt));
  nonzero = λ j e h. has_balance e (held j e (Bool-cases (alice == j)) (Bool-cases (bob == j)) h);
}
  where
    held :
        (j : Address) (e : Entry)
        → (alice == j ≡ true) ⊎ (alice == j ≡ false)
        → (bob == j ≡ true) ⊎ (bob == j ≡ false)
        → (if alice == j then some some_entry else if bob == j then some some_entry else none)
          ≡ some e
        → some_entry ≡ e
    held j e (inl p) q h = cc
    held j e (inr p) (inl q) h = cc
    held j e (inr p) (inr q) h = cc

-- Addresses are shown as they are.
sample_loop-take_example :
    sample_loop (λ address. address) 1 5 0 two_rows.inner
    ≡ print_rows (λ address. address) (take 1 (holding 5 two_rows.inner))
sample_loop-take_example = sample_loop-take (λ address. address) 1 5 two_rows.inner

from_map-counts_example :
    (from_map two_rows).usdt_holders + (from_map two_rows).usdc_holders
    ≡ length two_rows.inner + (from_map two_rows).both
from_map-counts_example = from_map-counts two_rows two_rows-HoldsBalances (omega arith)

from_map-IsOldest_example :
    ((j : Address) (e : Entry) → get j two_rows ≡ some e → IsOldest (from_map two_rows).stalest e)
    × (((from_map two_rows).stalest ≡ 2 ^ 32 - 1)
        ⊎ ((j : Address) × (e : Entry) × (get j two_rows ≡ some e)
            × IsChange (from_map two_rows).stalest e))
from_map-IsOldest_example = from_map-IsOldest two_rows two_rows-HoldsBalances

abbrev someone : Text
someone = ascii "0x0000000000000000000000000000000000000007"

-- As a client shows it.
shown_text :
    report_text
      (found (ascii "0x07") (record { usdt = 1234567; usdt_block = 21; usdc = 0; usdc_block = 0 }))
    ≡ ascii "0x07"
      ++ (10 ∷ ascii "  USDT                 1.234567  (last change at block 21)")
      ++ (10 ∷ ascii "  USDC                 0.000000  (last change at block 0)")
unfolding report_text found token_balance line_of pad_left format_units to_decimal to_decimal_padded
    digits_fuel
shown_text = refl

to_json-injective_example : (someone ≡ someone) × (some some_entry ≡ some some_entry)
to_json-injective_example =
    to_json-injective someone someone (some some_entry) (some some_entry) (omega arith)
      (omega arith) refl

abbrev small_directory : List ℕ → Directory
small_directory blob =
    directory_of blob (record { version = 3; len = 5; mphf_len = 4; delta_len = 1 })

-- A minute after the pass, twice.
abbrev ten_behind : ℕ → Progress
ten_behind at = record { cursor = 100; tip = 110; at = at }

status-injective_example :
    (sample 5060 (ten_behind 5000) ≡ sample 9060 (ten_behind 9000))
    × (sizes (small_directory (1 ∷ [])) ≡ sizes (small_directory (2 ∷ [])))
unfolding status status_body sample directory_of mphf_bytes tail_bytes age_text
status-injective_example =
    status-injective 5060 9060 (ten_behind 5000) (ten_behind 9000) (small_directory (1 ∷ []))
      (small_directory (2 ∷ [])) refl
