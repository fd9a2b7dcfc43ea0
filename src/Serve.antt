-- ===== src/Serve.antt =====
-- src/cli/serve_cmd.rs, with `snapshot` of src/publish/mod.rs: the map is opened and caught up, the
-- PIR thread starts from it, and the passes begin. Connecting to the provider, the file lock and
-- the tasks are glue, and waiting is not modelled.
pub mod Caught
pub mod Started
use poulpy_eth_pir_demo.Base.{
  ℕ, ◌+◌, Bool, true, false, Option, none, some, List, [], ◌∷◌, leb, if◌then◌else◌, ◌≡◌,
}
use poulpy_eth_pir_demo.Base.Equality.{byte_list_eq}
use poulpy_eth_pir_demo.Base.Table
use poulpy_eth_pir_demo.Base.Table.{Table}
use poulpy_eth_pir_demo.Base.Run.{Result, ok, err, Run, ◌>>=◌, ◌>>◌}
use poulpy_eth_pir_demo.Text.{Text}
use poulpy_eth_pir_demo.Tokens.{Address}
use poulpy_eth_pir_demo.Record.{Entry}
use poulpy_eth_pir_demo.Balances.{BalanceMap}
use poulpy_eth_pir_demo.Snapshot.{ErrorKind}
use poulpy_eth_pir_demo.Progress.{no_progress}
use poulpy_eth_pir_demo.Chain.Node.{Node, Fault, is_panic}
use poulpy_eth_pir_demo.Chain.Tip.{resolve}
use poulpy_eth_pir_demo.Publish.Current.{PirSnapshot}
use poulpy_eth_pir_demo.Publish.Store.{Files}
use poulpy_eth_pir_demo.Publish.Worker.{Server, Worker, run_thread}
use poulpy_eth_pir_demo.Follow.Stats.{only_blocks}
use poulpy_eth_pir_demo.Follow.Watch.{no_watch}
use poulpy_eth_pir_demo.Follow.Preflight.{preflight}
use poulpy_eth_pir_demo.Follow.Syncer.{Sync, FollowConfig, save, mark_snapshot, sync}
use poulpy_eth_pir_demo.Follow.Loop.{Channel, Follower, on_world, record_progress}
use poulpy_eth_pir_demo.Http.Routes.{bind_checks}
use poulpy_eth_pir_demo.Opening.{Closed, failed, open_map}
use poulpy_eth_pir_demo.Options.{ServeArgs, Serving, pir_config}

-- `keyword` is the identity on addresses.
unfoldable pub collect_rows : Table Address Entry → PirSnapshot → PirSnapshot
collect_rows [] copy = copy
collect_rows ((addr, e) ∷ rows) copy = collect_rows rows (Table.insert addr e copy)

unfoldable pub snapshot : BalanceMap → PirSnapshot
snapshot m = collect_rows m.inner []

module _ (node : Node) where
  open node use {World, now}

  abbrev pub as_closed : {A : Type 0} → Result Fault A × World → Result Closed A × World
  as_closed (ok a, w) = (ok a, w)
  as_closed (err e, w) = (err (failed e), w)

  -- What loading the snapshot gave comes in.
  unfoldable pub open_to_serve :
      ServeArgs → Result ErrorKind BalanceMap → Run World Closed BalanceMap
  open_to_serve args loaded = do
    m ← open_map node loaded args.from_block
    _ ← λ w. as_closed (preflight node (m.cursor + 1) w)
    λ w. (ok m, w)

  abbrev pub with_fresh_pass : BalanceMap → World → Sync World
  with_fresh_pass m w = record {
    world = w;
    map = m;
    last_snapshot = 0;
    watch = no_watch;
    changed = [];
    totals = only_blocks 0;
    inserted = [];
    chunk = 0;
    progress = no_progress;
  }

  -- The snapshot is written after a failure too, and a failure to write it comes first.
  unfoldable pub save_then : Result Fault (Unit {0}) → Run (Sync World) Fault (Unit {0})
  save_then synced = save node >> λ s. (synced, s)

  unfoldable pub sync_to_target : FollowConfig → ℕ → Run (Sync World) Fault (Unit {0})
  sync_to_target cfg target = mark_snapshot node >> λ s.
      let (synced, s') =
        sync node cfg (s.map.cursor + 1) target (record s { watch = no_watch; changed = [] }) in
      save_then synced s'

  unfoldable pub catch_up_to : FollowConfig → ℕ → Run (Sync World) Fault (Unit {0})
  catch_up_to cfg target s =
      let run = (record_progress node cfg s.map.cursor target >> sync_to_target cfg target) s in
      if leb target s.map.cursor then (ok tt, s) else run

  unfoldable pub catch_up_once : FollowConfig → Run (Sync World) Fault (Unit {0})
  catch_up_once cfg = on_world node (resolve node cfg.tip) >>= catch_up_to cfg

  -- Whether the loop ends; `none`: the program has panicked.
  unfoldable pub settle_catch_up : Result Fault (Unit {0}) × Sync World → Option (Bool × Sync World)
  settle_catch_up (ok t, s) = some (true, s)
  settle_catch_up (err e, s) = if is_panic e then none else some (false, s)

  -- A round of the loop of `catch_up_before_publish`, which has no other end than a success.
  unfoldable pub catch_up_round : FollowConfig → Sync World → Option (Bool × Sync World)
  catch_up_round cfg s = settle_catch_up (catch_up_once cfg s)

  -- The loop, from its first state to its last.
  pub data CatchesUp (cfg : FollowConfig) (s' : Sync World) : Sync World → Type 0 where
    done : {s : Sync World} → catch_up_round cfg s ≡ some (true, s') → CatchesUp cfg s' s
    again :
        {s t : Sync World}
        → catch_up_round cfg s ≡ some (false, t)
        → CatchesUp cfg s' t
        → CatchesUp cfg s' s

  -- What `run` of src/follow/loop_run.rs begins with, connected to the PIR thread.
  unfoldable pub begin_following : Sync World → Follower World
  begin_following s =
      let (t, w) = now s.world in
      record {
        inner = record s { world = w; last_snapshot = t; watch = no_watch; changed = [] };
        updates = some (record { is_open = true; sent = [] });
      }

  pub data NotStarted : Type 0 where
    pir_not_ready : NotStarted
    bad_flags : Text → NotStarted

  unfoldable pub check_endpoint : Serving → Result NotStarted (Unit {0})
  check_endpoint serving = elim (serving.listen) [
    | none ↦ ok tt
    | some addr ↦ elim (bind_checks serving.batch serving.rate) [
      | ok t ↦ ok tt
      | err message ↦ err (bad_flags message)
    ]
  ]

  module _ (server : Server) (directory_version : List ℕ → Result ErrorKind ℕ) where
    -- `run_pir_loop` up to the passes: the thread and the follower. What is on the disk comes in.
    unfoldable pub start_pir :
        Serving → Files → Sync World → Result NotStarted (Worker server.State × Follower World)
    start_pir serving files s =
        let cfg =
          pir_config serving.rebuild_every serving.compact_after serving.compact_tail_percent in
        elim (run_thread server cfg directory_version (snapshot s.map) files) [
          | none ↦ err pir_not_ready
          | some w ↦ elim (check_endpoint serving) [
            | ok t ↦ ok (w, begin_following s)
            | err e ↦ err e
          ]
        ]
