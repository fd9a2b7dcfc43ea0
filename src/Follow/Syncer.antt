-- ===== src/Follow/Syncer.antt =====
-- src/follow/syncer.rs: the map brought up to a block, range by range. `preflight` is in
-- Follow.Preflight.
pub mod Ends
pub mod Avoids
pub mod Chunks
pub mod Fits
pub mod Covered
pub mod Exact
use poulpy_eth_pir_demo.Base.{
  ℕ, zero, suc, ◌+◌, ◌-◌, ◌^◌, ◌&&◌, Bool, true, false, Option, none, some, List, [], ◌∷◌, min, leb,
  ltb, if◌then◌else◌,
}
use poulpy_eth_pir_demo.Base.Equality.{byte_list_eq}
use poulpy_eth_pir_demo.Base.Table
use poulpy_eth_pir_demo.Base.Table.{Table}
use poulpy_eth_pir_demo.Base.Run.{Result, ok, err, Run, pure, fail, ◌>>=◌, ◌>>◌}
use poulpy_eth_pir_demo.Tokens.{Address}
use poulpy_eth_pir_demo.Record.{Entry}
use poulpy_eth_pir_demo.Balances.{BalanceMap, prune_zero}
use poulpy_eth_pir_demo.Snapshot.{ErrorKind, write_snapshot_file}
use poulpy_eth_pir_demo.Progress.{Progress}
use poulpy_eth_pir_demo.Chain.Events.{Log}
use poulpy_eth_pir_demo.Chain.Node.{Node, Fault, io, overflow, stuck}
use poulpy_eth_pir_demo.Chain.Tip.{Tip}
use poulpy_eth_pir_demo.Follow.Stats.{BatchStats, SyncStats, only_blocks, only_logs, fold}
use poulpy_eth_pir_demo.Follow.Apply.{Outputs, apply_range}
use poulpy_eth_pir_demo.Follow.Logs.{fetch_logs}
use poulpy_eth_pir_demo.Follow.Watch.{ChainWatch, record_touched}

-- The settings that the syncer reads; times are milliseconds.
pub record FollowConfig : Type 0 where
  pub chunk : ℕ
  pub snapshot_every : ℕ
  pub tip : Tip
  pub reorg_window : ℕ
  pub reports_progress : Bool

-- Everything that a pass changes: `PassState`, the map, the totals, and the run's own variables.
pub record Sync (World : Type 0) : Type 0 where
  pub world : World
  pub map : BalanceMap
  pub last_snapshot : ℕ
  pub watch : ChainWatch
  pub changed : Table Address Entry
  pub totals : SyncStats
  pub inserted : Table Address (Unit {0})
  pub chunk : ℕ
  pub progress : Progress

-- For a range that is not empty; `checked_sub` makes it no blocks if the range has one block.
unfoldable pub start_totals : ℕ → ℕ → SyncStats
start_totals from to = only_blocks (if leb to from then 0 else to - from + 1)

-- The last block that a chunk may reach, with 64 bits: `none` if the sum overflows, or is 0 and has 1
-- taken away.
unfoldable pub chunk_end : ℕ → ℕ → Option ℕ
chunk_end lo chunk =
    if ltb 0 (lo + chunk) && ltb (lo + chunk) (2 ^ 64) then some (lo + chunk - 1) else none

module _ (node : Node) where
  open node use {World, now, write_file}

  unfoldable pub save : Run (Sync World) Fault (Unit {0})
  save s = settle (write_file (write_snapshot_file s.map) s.world)
    where
      settle : Result ErrorKind (Unit {0}) × World → Result Fault (Unit {0}) × Sync World
      settle (ok t, w) = (ok tt, record s { world = w })
      settle (err k, w) = (err (io k), record s { world = w })

  unfoldable pub mark_snapshot : Run (Sync World) Fault (Unit {0})
  mark_snapshot s = let (t, w) = now s.world in (ok tt, record s { world = w; last_snapshot = t })

  unfoldable pub maybe_snapshot : FollowConfig → Run (Sync World) Fault (Unit {0})
  maybe_snapshot cfg s =
      let (t, w) = now s.world in
      let s' = record s { world = w } in
      if ltb (t - s.last_snapshot) cfg.snapshot_every
      then (ok tt, s')
      else (save >> mark_snapshot) s'

  -- The logs of a range, and the chunk that was left.
  unfoldable pub fetch : ℕ → ℕ → Run (Sync World) Fault (List Log × ℕ)
  fetch lo want s =
      let (r, w, chunk) = fetch_logs node lo want s.chunk s.world in
      (r, record s { world = w; chunk = chunk })

  unfoldable pub apply_chunk : List Log → ℕ → Run (Sync World) Fault BatchStats
  apply_chunk logs hi s = settle (apply_range node logs hi outputs s.world)
    where
      outputs : Outputs
      outputs = record {
        map = s.map;
        inserted = s.inserted;
        changed = s.changed;
        stats = only_logs 0;
      }

      settle : Result Fault (Outputs × List Address) × World → Result Fault BatchStats × Sync World
      settle (ok (o, touched), w) = (
        ok o.stats,
        record s {
          world = w;
          map = o.map;
          inserted = o.inserted;
          changed = o.changed;
          watch = record_touched hi touched s.watch;
        },
      )
      settle (err e, w) = (err e, record s { world = w })

  unfoldable pub set_cursor : ℕ → BatchStats → Run (Sync World) Fault (Unit {0})
  set_cursor hi stats s =
      (ok tt, record s { map = record (s.map) { cursor = hi }; totals = fold stats s.totals })

  -- The block after the range that was done.
  unfoldable pub block_after : ℕ → Run (Sync World) Fault ℕ
  block_after hi = if ltb (hi + 1) (2 ^ 64) then pure (hi + 1) else fail overflow

  unfoldable pub sync_up_to : FollowConfig → ℕ → ℕ → Run (Sync World) Fault ℕ
  sync_up_to cfg lo want = do
    fetched ← fetch lo want
    stats ← apply_chunk fetched.0 fetched.1
    set_cursor fetched.1 stats
    maybe_snapshot cfg
    block_after fetched.1

  unfoldable pub sync_one_chunk : FollowConfig → ℕ → ℕ → Run (Sync World) Fault ℕ
  sync_one_chunk cfg lo to s = elim (chunk_end lo s.chunk) [
    | none ↦ (err overflow, s)
    | some end ↦ sync_up_to cfg lo (min end to) s
  ]

  -- Each round does a block at least, so as many rounds as there are blocks are enough.
  unfoldable pub chunk_loop : ℕ → FollowConfig → ℕ → ℕ → Run (Sync World) Fault (Unit {0})
  chunk_loop zero cfg lo to s = if leb lo to then (err stuck, s) else (ok tt, s)
  chunk_loop (suc fuel) cfg lo to s =
      let rest = (sync_one_chunk cfg lo to >>= λ next. chunk_loop fuel cfg next to) s in
      if leb lo to then rest else (ok tt, s)

  unfoldable pub sync_chunks : FollowConfig → ℕ → ℕ → Run (Sync World) Fault (Unit {0})
  sync_chunks cfg from to s =
      chunk_loop (to + 1 - from) cfg from to (record s { chunk = cfg.chunk })

  unfoldable pub prune_transient : Run (Sync World) Fault (Unit {0})
  prune_transient s =
      let (m, pruned) = prune_zero (Table.keys s.inserted) s.map in
      (
        ok tt,
        record s {
          map = m;
          totals = record (s.totals) { pruned = pruned; inserted = s.totals.inserted - pruned };
        },
      )

  unfoldable pub sync_into : FollowConfig → ℕ → ℕ → Run (Sync World) Fault (Unit {0})
  sync_into cfg from to s =
      let cleared = record s { changed = [] } in
      let run = (sync_chunks cfg from to >> prune_transient) (record cleared { inserted = [] }) in
      if ltb to from then (ok tt, cleared) else run

  -- The totals come back in the state.
  unfoldable pub sync : FollowConfig → ℕ → ℕ → Run (Sync World) Fault (Unit {0})
  sync cfg from to s = sync_into cfg from to (record s { totals = start_totals from to })
