-- ===== src/Retry.antt =====
-- src/cli/sync_cmd.rs: a bounded sync that tries again. Waiting is not modelled: the clock is a
-- parameter of the node. Opening the provider, the lock, loading the
-- snapshot and the printing are left out.
pub mod Ends
pub mod Command
use poulpy_eth_pir_demo.Base.{
  ℕ, zero, suc, ◌+◌, ◌-◌, ◌*◌, ◌%◌, ◌^◌, Option, none, some, [], leb, ltb, if◌then◌else◌,
}
use poulpy_eth_pir_demo.Base.Run.{Result, ok, err, Run, ◌>>◌}
use poulpy_eth_pir_demo.Balances.{BalanceMap}
use poulpy_eth_pir_demo.Balances
use poulpy_eth_pir_demo.Snapshot.{ErrorKind, not_found}
use poulpy_eth_pir_demo.Chain.Node.{Node, Fault, is_panic, stuck}
use poulpy_eth_pir_demo.Target.{Target, resolve_target}
use poulpy_eth_pir_demo.Follow.Preflight.{preflight}
use poulpy_eth_pir_demo.Follow.Stats.{only_blocks}
use poulpy_eth_pir_demo.Follow.Watch.{no_watch}
use poulpy_eth_pir_demo.Follow.Syncer.{Sync, FollowConfig, save, mark_snapshot, sync_into}

-- Why the command ends early, besides a fault of the chain.
pub data Refusal : Type 0 where
  from_required nothing_to_do : Refusal
  unreadable : ErrorKind → Refusal

-- `-` stops at 0, as `saturating_sub` does.
unfoldable pub create_map : Option ℕ → Result Refusal BalanceMap
create_map none = err from_required
create_map (some start) = ok (Balances.new (start - 1))

-- The argument is what loading the snapshot gave.
unfoldable pub load_or_create_map :
    Result ErrorKind BalanceMap → Option ℕ → Result Refusal BalanceMap
load_or_create_map (ok m) from = ok m
load_or_create_map (err not_found) from = create_map from
load_or_create_map (err e) from = err (unreadable e)

-- `from.unwrap_or(cursor + 1)`
unfoldable pub first_to_sync : ℕ → Option ℕ → ℕ
first_to_sync cursor none = cursor + 1
first_to_sync cursor (some from) = from

unfoldable pub prepare_replay : Option ℕ → BalanceMap → ℕ × BalanceMap
prepare_replay from m =
    let start = first_to_sync m.cursor from in
    (start, if leb start m.cursor then record m { cursor = start - 1 } else m)

unfoldable pub record_retry_progress : ℕ → ℕ → ℕ
record_retry_progress advanced stalled = if ltb 0 advanced then 0 else (stalled + 1) % 2 ^ 32

pub data Failure : Type 0 where
  refused : Refusal → Failure
  failed : Fault → Failure

module _ (node : Node) where
  open node use {World}

  -- A pass with a watch and changes of its own; the totals go on.
  unfoldable pub sync_once : FollowConfig → ℕ → ℕ → Run (Sync World) Fault (Unit {0})
  sync_once cfg from to = mark_snapshot node >> λ s.
      sync_into node cfg from to (record s { watch = no_watch; changed = [] })

  -- A save that fails is only logged.
  unfoldable pub save_failed_progress : Sync World → Sync World
  save_failed_progress s = let (r, s') = save node s in s'

  unfoldable pub set_blocks : ℕ → Sync World → Sync World
  set_blocks origin s = record s { totals = record (s.totals) { blocks = s.map.cursor - origin } }

  -- What an attempt does to the loop: it ends it, or the next one starts at the block after the
  -- cursor, with the count of attempts in a row that have not advanced.
  pub data Attempt : Type 0 where
    ended : Result Fault (Unit {0}) → Sync World → Attempt
    again : ℕ → Sync World → Attempt

  unfoldable pub finish_sync : ℕ → Sync World → Attempt
  finish_sync origin s = let (r, s') = save node (set_blocks origin s) in ended r s'

  unfoldable pub wait_to_retry : ℕ → ℕ → ℕ → ℕ → ℕ → Fault → Sync World → Attempt
  wait_to_retry origin to before retries stalled e s =
      let s' = save_failed_progress s in
      let stalled' = record_retry_progress (s.map.cursor - before) stalled in
      if ltb retries stalled'
      then ended (err e) s'
      else if ltb to (s'.map.cursor + 1)
      then ended (ok tt) (set_blocks origin s')
      else again stalled' s'

  unfoldable pub settle_attempt : ℕ → ℕ → ℕ → ℕ → ℕ → Result Fault (Unit {0}) × Sync World → Attempt
  settle_attempt origin to before retries stalled (ok t, s) = finish_sync origin s
  settle_attempt origin to before retries stalled (err e, s) =
      if is_panic e then ended (err e) s else wait_to_retry origin to before retries stalled e s

  unfoldable pub attempt : FollowConfig → ℕ → ℕ → ℕ → ℕ → ℕ → Sync World → Attempt
  attempt cfg origin start to retries stalled s =
      settle_attempt origin to s.map.cursor retries stalled (sync_once cfg start to s)

  unfoldable pub retry_loop :
      ℕ → FollowConfig → ℕ → ℕ → ℕ → ℕ → ℕ → Run (Sync World) Fault (Unit {0})
  retry_loop zero cfg origin start to retries stalled s = (err stuck, s)
  retry_loop (suc fuel) cfg origin start to retries stalled s =
      elim (attempt cfg origin start to retries stalled s) [
        | ended r s' ↦ (r, s')
        | again stalled' s' ↦ retry_loop fuel cfg origin (s'.map.cursor + 1) to retries stalled' s'
      ]

  -- An attempt that does not end the loop either moves the cursor or counts as stalled, if the count
  -- does not wrap, so there
  -- are no more than `retries + 1` attempts for each block and at the last one. The totals come back
  -- in the state.
  unfoldable pub run_sync : FollowConfig → ℕ → ℕ → ℕ → Run (Sync World) Fault (Unit {0})
  run_sync cfg from to retries s =
      retry_loop ((to + 1 - from) * (retries + 1) + retries + 1) cfg s.map.cursor from to retries 0
        (record s { totals = only_blocks 0 })

  unfoldable pub as_failure :
      Result Fault (Unit {0}) × Sync World → Result Failure (Unit {0}) × Sync World
  as_failure (ok t, s) = (ok t, s)
  as_failure (err e, s) = (err (failed e), s)

  unfoldable pub after_preflight :
      FollowConfig
      → ℕ
      → ℕ
      → ℕ
      → BalanceMap
      → Sync World
      → Result Fault (Unit {0}) × World
      → Result Failure (Unit {0}) × Sync World
  after_preflight cfg start to retries m s (err e, w) = (err (failed e), record s { world = w })
  after_preflight cfg start to retries m s (ok t, w) =
      as_failure (run_sync cfg start to retries (record s { world = w; map = m }))

  unfoldable pub with_map :
      FollowConfig
      → ℕ
      → Option ℕ
      → ℕ
      → Result Refusal BalanceMap
      → Sync World
      → Result Failure (Unit {0}) × Sync World
  with_map cfg to from retries (err refusal) s = (err (refused refusal), s)
  with_map cfg to from retries (ok m) s =
      let (start, m') = prepare_replay from m in
      if ltb to start
      then (err (refused nothing_to_do), s)
      else after_preflight cfg start to retries m' s (preflight node start s.world)

  unfoldable pub with_target :
      FollowConfig
      → Option ℕ
      → ℕ
      → Result ErrorKind BalanceMap
      → Sync World
      → Result Fault ℕ × World
      → Result Failure (Unit {0}) × Sync World
  with_target cfg from retries loaded s (err e, w) = (err (failed e), record s { world = w })
  with_target cfg from retries loaded s (ok to, w) =
      with_map cfg to from retries (load_or_create_map loaded from) (record s { world = w })

  -- The command, from the resolution of its target on. What loading the snapshot gives comes in; the
  -- map in the state at the start is not looked at.
  unfoldable pub run :
      FollowConfig
      → Target
      → Option ℕ
      → ℕ
      → Result ErrorKind BalanceMap
      → Sync World
      → Result Failure (Unit {0}) × Sync World
  run cfg target from retries loaded s =
      with_target cfg from retries loaded s (resolve_target node target s.world)
