-- ===== src/Follow/Loop.antt =====
-- src/follow/loop_run.rs: the passes over the chain, one after another. The channel to the PIR
-- thread is the list of what was sent. Waiting is not modelled: the clock is a parameter.
pub mod Sent
pub mod Stays
pub mod Armed
pub mod InLine
pub mod Kept
pub mod Right
pub mod Near
use poulpy_eth_pir_demo.Base.{
  ℕ, ◌+◌, ◌%◌, ◌^◌, max, Bool, Option, none, some, List, [], ◌∷◌, ◌++◌, length, nat_eq, leb,
  if◌then◌else◌,
}
use poulpy_eth_pir_demo.Base.Run.{Result, ok, err, Run, pure, ◌>>=◌, ◌>>◌}
use poulpy_eth_pir_demo.Progress.{recorded_at}
use poulpy_eth_pir_demo.Chain.Node.{Node, Fault, pir_thread_gone, is_panic}
use poulpy_eth_pir_demo.Chain.Tip.{is_reorgable, resolve}
use poulpy_eth_pir_demo.Publish.Current.{UpdateBatch}
use poulpy_eth_pir_demo.Follow.Watch.{Watched, repair_if_reorged, store_cursor_hash, trim}
use poulpy_eth_pir_demo.Follow.Syncer.{Sync, FollowConfig, save, mark_snapshot, sync}

pub record Channel : Type 0 where
  pub is_open : Bool
  pub sent : List UpdateBatch

pub record Follower (World : Type 0) : Type 0 where
  pub inner : Sync World
  pub updates : Option Channel

-- A follower, and how many passes in a row have failed.
pub record Rounds (World : Type 0) : Type 0 where
  pub follower : Follower World
  pub failures : ℕ

module _ (node : Node) where
  open node use {World, unix_time}

  abbrev pub on_inner : {A : Type 0} → Run (Sync World) Fault A → Run (Follower World) Fault A
  on_inner m s = let (r, t) = m s.inner in (r, record s { inner = t })

  abbrev pub on_watch : {A : Type 0} → Run (Watched World) Fault A → Run (Sync World) Fault A
  on_watch m s =
      let (r, t) = m (record { world = s.world; watch = s.watch; map = s.map }) in
      (r, record s { world = t.world; watch = t.watch; map = t.map })

  abbrev pub on_world : {A : Type 0} → Run World Fault A → Run (Sync World) Fault A
  on_world m s = let (r, w) = m s.world in (r, record s { world = w })

  unfoldable pub repair_if_needed : FollowConfig → Run (Sync World) Fault (Unit {0})
  repair_if_needed cfg =
      if is_reorgable cfg.tip then on_watch (repair_if_reorged node cfg.reorg_window) else pure tt

  unfoldable pub record_progress : FollowConfig → ℕ → ℕ → Run (Sync World) Fault (Unit {0})
  record_progress cfg cursor tip s =
      let (t, w) = unix_time s.world in
      (
        ok tt,
        if cfg.reports_progress
            then record s { world = w; progress = recorded_at cursor tip t }
            else s,
      )

  unfoldable pub trim_watch : FollowConfig → Run (Sync World) Fault (Unit {0})
  trim_watch cfg s = (ok tt, record s { watch = trim s.map.cursor cfg.reorg_window s.watch })

  unfoldable pub update_reorg_watch : FollowConfig → Run (Sync World) Fault (Unit {0})
  update_reorg_watch cfg s =
      (if is_reorgable cfg.tip
          then (on_watch (store_cursor_hash node s.map.cursor) >> trim_watch cfg)
          else pure tt)
        s

  unfoldable pub publish_changes : Run (Follower World) Fault (Unit {0})
  publish_changes s = elim (s.updates) [
    | none ↦ (ok tt, s)
    | some tx ↦
        if nat_eq (length s.inner.changed) 0
        then (ok tt, s)
        else if tx.is_open
        then (
          ok tt,
          record s { updates = some (record tx { sent = tx.sent ++ (s.inner.changed ∷ []) }) },
        )
        else (err pir_thread_gone, s)
  ]

  unfoldable pub record_finished : FollowConfig → Run (Sync World) Fault (Unit {0})
  record_finished cfg s = record_progress cfg s.map.cursor (max s.map.cursor s.progress.tip) s

  unfoldable pub finish_pass : FollowConfig → Run (Follower World) Fault (Unit {0})
  finish_pass cfg = do
    _ ← on_inner (update_reorg_watch cfg)
    _ ← on_inner (save node)
    _ ← on_inner (record_finished cfg)
    _ ← on_inner (mark_snapshot node)
    publish_changes

  unfoldable pub advance : FollowConfig → ℕ → Run (Follower World) Fault (Unit {0})
  advance cfg target s =
      let cursor = s.inner.map.cursor in
      let run =
        (do
          _ ← on_inner (record_progress cfg cursor target)
          _ ← on_inner (sync node cfg (cursor + 1) target)
          finish_pass cfg)
          s in
      if leb target cursor then (ok tt, s) else run

  unfoldable pub pass : FollowConfig → Run (Follower World) Fault (Unit {0})
  pass cfg = do
    _ ← on_inner (repair_if_needed cfg)
    target ← on_inner (on_world (resolve node cfg.tip))
    advance cfg target

  -- A save that fails is only logged.
  unfoldable pub snapshot_failed_progress : Follower World → Follower World
  snapshot_failed_progress s =
      let (r, t) = (save node >> mark_snapshot node) s.inner in record s { inner = t }

  unfoldable pub on_success : Follower World → Rounds World
  on_success s = record { follower = s; failures = 0 }

  unfoldable pub on_failure : ℕ → Follower World → Rounds World
  on_failure failures s = record {
    follower = snapshot_failed_progress s;
    failures = (failures + 1) % 2 ^ 32;
  }

  -- `none`: the program has panicked.
  unfoldable pub settle_pass : ℕ → Result Fault (Unit {0}) × Follower World → Option (Rounds World)
  settle_pass failures (ok t, s) = some (on_success s)
  settle_pass failures (err e, s) = if is_panic e then none else some (on_failure failures s)

  -- A round of the endless loop of `run`.
  unfoldable pub round : FollowConfig → Rounds World → Option (Rounds World)
  round cfg r = settle_pass r.failures (pass cfg r.follower)
