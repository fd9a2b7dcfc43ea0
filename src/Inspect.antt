-- ===== src/Inspect.antt =====
-- src/cli/inspect.rs: reports on a snapshot. What a command prints is its list of lines; how an
-- address is shown belongs to alloy. The line with the occupancy in percent is left out, a
-- floating-point number.
pub mod Shown
pub mod Counts
use poulpy_eth_pir_demo.Base.{
  ℕ, ◌+◌, ◌-◌, ◌*◌, ◌%◌, ◌^◌, ◌&&◌, Option, none, some, List, [], ◌∷◌, ◌++◌, length, min, nat_eq,
  ltb, if◌then◌else◌,
}
use poulpy_eth_pir_demo.Base.Equality.{byte_list_eq}
use poulpy_eth_pir_demo.Base.Table.{Table}
use poulpy_eth_pir_demo.Base.Run.{Result, ok, err}
use poulpy_eth_pir_demo.Text.{Text, ascii, to_decimal, pad_left, pad_right}
use poulpy_eth_pir_demo.Tokens.{Address}
use poulpy_eth_pir_demo.Record.{Entry, decimals, format_units}
use poulpy_eth_pir_demo.Balances.{BalanceMap, get}
use poulpy_eth_pir_demo.Snapshot.{ErrorKind}

unfoldable pub since : ℕ → Text
since block = if nat_eq block 0 then ascii "never" else ascii "block " ++ to_decimal block

unfoldable pub print_balance : Text → ℕ → ℕ → Text
print_balance symbol amount block =
    pad_right 8 symbol
    ++ (ascii " "
        ++ (pad_left 24 (format_units amount) ++ (ascii "   last changed " ++ since block)))

unfoldable pub print_lookup : Text → ℕ → Entry → List Text
print_lookup address cursor e =
    (ascii "address  " ++ address)
    ∷ (ascii "as of    block " ++ to_decimal cursor)
    ∷ print_balance (ascii "USDT") e.usdt e.usdt_block
    ∷ print_balance (ascii "USDC") e.usdc e.usdc_block
    ∷ []

module _ (display : Address → Text) where
  -- The argument is what loading the snapshot gave.
  unfoldable pub lookup : Result ErrorKind BalanceMap → Address → Result ErrorKind (List Text)
  lookup (err e) address = err e
  lookup (ok m) address = ok (elim (get address m) [
    | some e ↦ print_lookup (display address) m.cursor e
    | none ↦
        (display address
          ++ (ascii " not in the map (as of block " ++ (to_decimal m.cursor ++ ascii ")")))
        ∷ []
  ])

  unfoldable pub print_row : Address → Entry → Text
  print_row address e =
      display address
      ++ (ascii "  USDT "
          ++ (pad_left 20 (format_units e.usdt)
              ++ (ascii "  USDC " ++ pad_left 20 (format_units e.usdc))))

  -- The lines of the rows shown; `shown` counts those before.
  unfoldable pub sample_loop : ℕ → ℕ → ℕ → Table Address Entry → List Text
  sample_loop count floor shown [] = []
  sample_loop count floor shown ((address, e) ∷ rest) =
      let skipped = sample_loop count floor shown rest in
      let printed = sample_loop count floor (shown + 1) rest in
      if nat_eq shown count
      then []
      else if ltb e.usdt floor && ltb e.usdc floor
      then skipped
      else print_row address e ∷ printed

  -- `saturating_mul` of the smallest amount by a unit.
  unfoldable pub floor_of : ℕ → ℕ
  floor_of smallest = min (smallest * 10 ^ decimals) (2 ^ 128 - 1)

  unfoldable pub sample : Result ErrorKind BalanceMap → ℕ → ℕ → Result ErrorKind (List Text)
  sample (err e) count smallest = err e
  sample (ok m) count smallest =
      let rows = sample_loop count (floor_of smallest) 0 m.inner in
      ok (
        if nat_eq (length rows) 0
        then (ascii "no address holds at least "
            ++ (to_decimal smallest
                ++ (ascii " of either token (map has "
                    ++ (to_decimal (length m.inner) ++ ascii " entries)"))))
          ∷ []
        else rows)

pub record SnapshotStats : Type 0 where
  pub usdt_holders : ℕ
  pub usdc_holders : ℕ
  pub both : ℕ
  pub usdt_total : ℕ
  pub usdc_total : ℕ
  pub stalest : ℕ

abbrev pub no_stats : SnapshotStats
no_stats = record {
  usdt_holders = 0;
  usdc_holders = 0;
  both = 0;
  usdt_total = 0;
  usdc_total = 0;
  stalest = 2 ^ 32 - 1;
}

-- A count of 64 bits, as a release build adds.
abbrev pub one_more : ℕ → ℕ
one_more n = (n + 1) % 2 ^ 64

unfoldable pub add_usdt : Entry → SnapshotStats → SnapshotStats
add_usdt e out = if nat_eq e.usdt 0 then out else record out {
  usdt_holders = one_more out.usdt_holders;
  usdt_total = (out.usdt_total + e.usdt) % 2 ^ 128;
  stalest = min out.stalest e.usdt_block;
}

unfoldable pub add_usdc : Entry → SnapshotStats → SnapshotStats
add_usdc e out = if nat_eq e.usdc 0 then out else record out {
  usdc_holders = one_more out.usdc_holders;
  usdc_total = (out.usdc_total + e.usdc) % 2 ^ 128;
  stalest = min out.stalest e.usdc_block;
}

unfoldable pub add : Entry → SnapshotStats → SnapshotStats
add e out =
    let out = add_usdc e (add_usdt e out) in
    if ltb 0 e.usdt && ltb 0 e.usdc then record out { both = one_more out.both } else out

unfoldable pub add_each : Table Address Entry → SnapshotStats → SnapshotStats
add_each [] out = out
add_each ((address, e) ∷ rest) out = add_each rest (add e out)

unfoldable pub from_map : BalanceMap → SnapshotStats
from_map m = add_each m.inner no_stats
