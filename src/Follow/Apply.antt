-- ===== src/Follow/Apply.antt =====
-- src/follow/apply.rs: the readings of one block range applied to the map, with what the PIR side
-- has to be told (`changed`) and which addresses this pass put in (`inserted`).
pub mod Recorded
pub mod Next
pub mod Mirror
pub mod Pass
pub mod Refilled
pub mod Covers
pub mod Exact
pub mod Ranges
use poulpy_eth_pir_demo.Base.{
  ℕ, ◌+◌, Bool, true, false, ◌&&◌, Option, none, some, List, [], ◌∷◌, ◌++◌, length, nat_eq,
  if◌then◌else◌,
}
use poulpy_eth_pir_demo.Base.Equality.{byte_list_eq}
use poulpy_eth_pir_demo.Base.Table
use poulpy_eth_pir_demo.Base.Table.{Table, is_some, or_default}
use poulpy_eth_pir_demo.Base.Run.{Result, ok, err, Run, lift, pure, fail, ◌>>=◌}
use poulpy_eth_pir_demo.Tokens.{Address, usdt_token}
use poulpy_eth_pir_demo.Record.{Entry, no_entry}
use poulpy_eth_pir_demo.Balances.{
  Reading, BalanceMap, Applied, inserted, updated, removed, unchanged, skipped_new_zero,
}
use poulpy_eth_pir_demo.Balances
use poulpy_eth_pir_demo.Chain.Touch.{Touch, no_touch, see}
use poulpy_eth_pir_demo.Chain.Events.{Log, Touched, collect_touched}
use poulpy_eth_pir_demo.Chain.Node.{Node, Fault, panic}
use poulpy_eth_pir_demo.Chain.Rpc.{read_balances, usdt_owner}
use poulpy_eth_pir_demo.Follow.Stats.{BatchStats, only_logs}

-- The map with what a pass collects about it. `inserted` is a set.
pub record Outputs : Type 0 where
  pub map : BalanceMap
  pub inserted : Table Address (Unit {0})
  pub changed : Table Address Entry
  pub stats : BatchStats

unfoldable pub record_inserted : Address → Outputs → Outputs
record_inserted addr o = record o {
  stats = record (o.stats) { inserted = o.stats.inserted + 1 };
  inserted = Table.insert addr tt o.inserted;
  changed = Table.insert addr no_entry o.changed;
}

unfoldable pub record_updated : Address → Outputs → Outputs
record_updated addr o = record o {
  stats = record (o.stats) { updated = o.stats.updated + 1 };
  changed = Table.insert addr no_entry o.changed;
}

unfoldable pub record_removed : Address → Entry → Outputs → Outputs
record_removed addr entry o =
    let stats : BatchStats = record (o.stats) { removed = o.stats.removed + 1 } in
    if Table.contains_key addr o.inserted
    then record o {
      stats = stats;
      inserted = Table.remove addr o.inserted;
      changed = Table.remove addr o.changed;
    }
    else record o { stats = stats; changed = Table.insert addr entry o.changed }

unfoldable pub record_apply_result : Applied → Address → Outputs → Outputs
record_apply_result inserted addr o = record_inserted addr o
record_apply_result updated addr o = record_updated addr o
record_apply_result (removed entry) addr o = record_removed addr entry o
record_apply_result unchanged addr o = record o {
  stats = record (o.stats) { unchanged = o.stats.unchanged + 1 };
}
record_apply_result skipped_new_zero addr o = record o {
  stats = record (o.stats) { skipped_new_zero = o.stats.skipped_new_zero + 1 };
}

-- The value recorded for an address that stays in the map is its current entry.
unfoldable pub record_current_entry : Address → Outputs → Outputs
record_current_entry addr o = elim (Balances.get addr o.map) [
  | none ↦ o
  | some entry ↦
      if Table.contains_key addr o.changed
      then record o { changed = Table.insert addr entry o.changed }
      else o
]

-- One round of the loop over the readings; `none` is the panic of a block number past 32 bits.
unfoldable pub apply_reading : Touch → Address → Reading → Outputs → Option Outputs
apply_reading seen addr reading o = elim (Balances.apply addr reading seen o.map) [
  | none ↦ none
  | some (m, applied) ↦
      some (record_current_entry addr (record_apply_result applied addr (record o { map = m })))
]

unfoldable pub apply_readings : Touched → Table Address Reading → Outputs → Option Outputs
apply_readings touched [] o = some o
apply_readings touched ((addr, reading) ∷ rest) o =
    elim (apply_reading (or_default no_touch (Table.get addr touched)) addr reading o) [
      | none ↦ none
      | some o' ↦ apply_readings touched rest o'
    ]

module _ (node : Node) where
  open node use {World}

  unfoldable pub add_usdt_owner_touches : List ℕ → Touched → Run World Fault Touched
  add_usdt_owner_touches [] touched = pure touched
  add_usdt_owner_touches (block ∷ rest) touched = do
    owner ← usdt_owner node block
    let t = see usdt_token (some block) (or_default no_touch (Table.get owner touched))
    add_usdt_owner_touches rest (Table.insert owner t touched)

  unfoldable pub collect_addresses : List Log → Run World Fault Touched
  collect_addresses logs =
      let (touched, collected) = collect_touched logs [] in
      add_usdt_owner_touches collected.usdt_supply_blocks touched

  unfoldable pub or_panic : Option Outputs → Run World Fault Outputs
  or_panic none = fail panic
  or_panic (some o) = pure o

  -- The readings of a range. `o` carries the map and the pass; the addresses touched come back too.
  unfoldable pub apply_touched : ℕ → Touched → Outputs → Run World Fault (Outputs × List Address)
  apply_touched at touched o = do
    let addrs = Table.keys touched
    readings ← read_balances node addrs at
    o' ← or_panic (apply_readings touched readings o)
    pure (o', addrs)

  unfoldable pub apply_range : List Log → ℕ → Outputs → Run World Fault (Outputs × List Address)
  apply_range logs at o = do
    touched ← collect_addresses logs
    let stats = record (only_logs (length logs)) { touched = length touched }
    let start = record o { stats = stats }
    if nat_eq (length touched) 0 then pure (start, []) else apply_touched at touched start
