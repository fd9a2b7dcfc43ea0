-- ===== src/Examples/Passes.antt =====
-- Runs of a pass over readings.
use poulpy_eth_pir_demo.Base.{◌≡◌, refl, none, some, [], ◌∷◌, arith}
use poulpy_eth_pir_demo.Base.Equality.{byte_list_eq, bytes_eq}
use poulpy_eth_pir_demo.Base.Table
use poulpy_eth_pir_demo.Base.Table.{Table}
use poulpy_eth_pir_demo.Tokens.{Address}
use poulpy_eth_pir_demo.Record.{Entry}
use poulpy_eth_pir_demo.Record
use poulpy_eth_pir_demo.Balances.{Reading, BalanceMap, new}
use poulpy_eth_pir_demo.Balances
use poulpy_eth_pir_demo.Balances.Invariant.{HoldsBalances}
use poulpy_eth_pir_demo.Chain.Touch.{no_touch}
use poulpy_eth_pir_demo.Chain.Events.{Touched}
use poulpy_eth_pir_demo.Publish.Current.{record_batch}
use poulpy_eth_pir_demo.Follow.Stats.{only_logs}
use poulpy_eth_pir_demo.Follow.Apply.{Outputs, apply_reading, apply_readings}
use poulpy_eth_pir_demo.Follow.Apply.Mirror.{Tracks}
use poulpy_eth_pir_demo.Follow.Apply.Pass.{AllFit, record_batch-apply_readings}
use poulpy_eth_pir_demo.Follow.Apply.Refilled.{drained_again_stays_published}
use poulpy_eth_pir_demo.Examples.Records.{alice, bob, some_entry, some_reading}

abbrev one_holder : BalanceMap
one_holder = record { inner = (alice, some_entry) ∷ []; cursor = 7 }

abbrev start : Outputs
start = record { map = one_holder; inserted = []; changed = []; stats = only_logs 0 }

abbrev nothing : Reading
nothing = record { usdt = 0; usdc = 0 }

abbrev two_readings : Table Address Reading
two_readings = (alice, nothing) ∷ (bob, some_reading) ∷ []

abbrev no_touches : Touched
no_touches = []

no_touches-AllFit : AllFit no_touches
unfolding Table.get
no_touches-AllFit j = (tt, tt)

one_holder-HoldsBalances : HoldsBalances one_holder
unfolding Balances.get Table.get Record.is_zero
one_holder-HoldsBalances = record { once = (refl, tt); nonzero = λ j e h. ground arith }

start-Tracks : Tracks one_holder.inner start
unfolding Balances.get Table.get Table.contains_key
start-Tracks = record {
  agrees = λ j. refl;
  fresh = λ j h. cc;
  once = tt;
  balances = one_holder-HoldsBalances;
}

record_batch-apply_readings_example :
    (o' : Outputs) × (apply_readings no_touches two_readings start ≡ some o')
    × ((j : Address)
        → Table.get j (record_batch o'.changed one_holder.inner) ≡ Balances.get j o'.map)
unfolding Table.get Balances.get bytes_eq
record_batch-apply_readings_example =
    record_batch-apply_readings one_holder.inner no_touches two_readings start no_touches-AllFit
      (refl, (refl, tt)) one_holder-HoldsBalances refl refl (λ j. refl)

drained_again_stays_published_example :
    (o₁ o₂ o₃ : Outputs) × (apply_reading no_touch alice nothing start ≡ some o₁)
    × (apply_reading no_touch alice some_reading o₁ ≡ some o₂)
    × (apply_reading no_touch alice nothing o₂ ≡ some o₃)
    × (Balances.get alice o₃.map ≡ none)
    × (Table.get alice (record_batch o₃.changed one_holder.inner) ≡ some some_entry)
unfolding Table.get Balances.get bytes_eq Balances.is_zero
drained_again_stays_published_example =
    drained_again_stays_published one_holder.inner alice some_entry start no_touch no_touch no_touch
      nothing some_reading nothing (tt, tt) (tt, tt) (tt, tt) refl refl refl start-Tracks refl refl
