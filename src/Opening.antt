-- ===== src/Opening.antt =====
-- src/cli/commands.rs: the map that `follow` and `serve` begin with.
use poulpy_eth_pir_demo.Base.{ℕ, ◌-◌, Option, none, some}
use poulpy_eth_pir_demo.Base.Run.{Result, ok, err, Run}
use poulpy_eth_pir_demo.Balances
use poulpy_eth_pir_demo.Balances.{BalanceMap}
use poulpy_eth_pir_demo.Snapshot.{ErrorKind, not_found}
use poulpy_eth_pir_demo.Chain.Node.{Node, Fault}
use poulpy_eth_pir_demo.Target.{Target, resolve_target}

-- Why there is no map to begin with.
pub data Closed : Type 0 where
  -- With the snapshot's cursor.
  only_when_fresh : ℕ → Closed
  no_snapshot : Closed
  unreadable : ErrorKind → Closed
  failed : Fault → Closed

unfoldable pub resume_existing_map : BalanceMap → Option Target → Result Closed BalanceMap
resume_existing_map m none = ok m
resume_existing_map m (some from) = err (only_when_fresh m.cursor)

module _ (node : Node) where
  open node use {World}

  -- `-` stops at 0, as `saturating_sub` does.
  unfoldable pub empty_map_at : Result Fault ℕ × World → Result Closed BalanceMap × World
  empty_map_at (ok start, w) = (ok (Balances.new (start - 1)), w)
  empty_map_at (err e, w) = (err (failed e), w)

  unfoldable pub start_empty_map : Option Target → Run World Closed BalanceMap
  start_empty_map none w = (err no_snapshot, w)
  start_empty_map (some from) w = empty_map_at (resolve_target node from w)

  -- What loading the snapshot gave comes in.
  unfoldable pub open_map :
      Result ErrorKind BalanceMap → Option Target → Run World Closed BalanceMap
  open_map (ok m) from w = (resume_existing_map m from, w)
  open_map (err not_found) from w = start_empty_map from w
  open_map (err e) from w = (err (unreadable e), w)
