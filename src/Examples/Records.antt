-- ===== src/Examples/Records.antt =====
-- Runs of the record layout and of the balance map.
use poulpy_eth_pir_demo.Base.{
  ◌-◌, ◌≡◌, none, some, [], ◌∷◌, length, drop, replicate, arith, if◌then◌else◌,
}
use poulpy_eth_pir_demo.Base.Equality.{◌==◌, byte_list_eq}
use poulpy_eth_pir_demo.Tokens.{Address}
use poulpy_eth_pir_demo.Record.{Entry, encode, decode, spare_at}
use poulpy_eth_pir_demo.Record.RoundTrip.{decode-encode}
use poulpy_eth_pir_demo.Chain.Touch.{Touch}
use poulpy_eth_pir_demo.Balances.{
  Reading, BalanceMap, Applied, new, get, apply, prune_zero, is_zero,
}
use poulpy_eth_pir_demo.Balances.Apply.{apply_lem, refreshed, reported}
use poulpy_eth_pir_demo.Balances.Invariant.{HoldsBalances, new-HoldsBalances, apply-HoldsBalances}

abbrev pub alice : Address
alice = replicate 20 7

abbrev pub bob : Address
bob = replicate 20 9

abbrev pub some_entry : Entry
some_entry = record { usdt = 1000000; usdt_block = 21000000; usdc = 5; usdc_block = 20999999 }

decode-encode_example :
    (decode (encode 44 some_entry) ≡ some_entry)
    × (length (encode 44 some_entry) ≡ 44)
    × (drop spare_at (encode 44 some_entry) ≡ replicate (44 - spare_at) 0)
decode-encode_example = decode-encode some_entry 44 (omega arith) (omega arith)

abbrev pub some_reading : Reading
some_reading = record { usdt = 12; usdc = 0 }

abbrev pub some_touch : Touch
some_touch = record { usdt = some 100; usdc = none }

apply_lem_example :
    (m' : BalanceMap) × (apply alice some_reading some_touch (new 7)
      ≡ some (m', reported (get alice (new 7)) some_reading some_touch))
    × (m'.cursor ≡ (new 7).cursor)
    × ((j : Address)
        → get j m' ≡ (
            if alice == j
            then if is_zero some_reading
              then none
              else some (refreshed (get alice (new 7)) some_reading some_touch)
            else get j (new 7)))
apply_lem_example = apply_lem alice some_reading some_touch (new 7) (omega arith, tt)

apply-HoldsBalances_example :
    (m' : BalanceMap) × (a : Applied) × (apply alice some_reading some_touch (new 7) ≡ some (m', a))
    × HoldsBalances m'
    × (prune_zero (alice ∷ bob ∷ []) m' ≡ (m', 0))
apply-HoldsBalances_example =
    apply-HoldsBalances alice some_reading some_touch (alice ∷ bob ∷ []) (new 7) (omega arith, tt)
      (new-HoldsBalances 7)
