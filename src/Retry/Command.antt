-- ===== src/Retry/Command.antt =====
-- The sync command as a whole: whatever the node answers, it ends, and if it succeeds the map stands
-- at the target.
use poulpy_eth_pir_demo.Base.{ℕ, ◌+◌, ◌^◌, ◌<◌, ◌≤◌, ◌≡◌, ◌≢◌, Option, none, some}
use poulpy_eth_pir_demo.Base.Run.{Result, ok, err}
use poulpy_eth_pir_demo.Balances.{BalanceMap}
use poulpy_eth_pir_demo.Snapshot.{ErrorKind}
use poulpy_eth_pir_demo.Target.{Target, resolve_target}
use poulpy_eth_pir_demo.Chain.Node.{Node, stuck, overflow}
use poulpy_eth_pir_demo.Follow.Syncer.Avoids.{Avoids}
use poulpy_eth_pir_demo.Follow.Syncer.{Sync, FollowConfig}
use poulpy_eth_pir_demo.Retry.{Failure, refused, failed}
use poulpy_eth_pir_demo.Retry.Ends.{IsOrdinary}

-- With a snapshot that was loaded, the block to begin at is no later than the one after its cursor.
abbrev pub Adjoins : Result ErrorKind BalanceMap → Option ℕ → Type 0
Adjoins (ok m) (some from) = from ≤ m.cursor + 1
Adjoins (ok m) none = Unit
Adjoins (err e) from = Unit

module _ (node : Node) (cfg : FollowConfig) (chunk : 1 ≤ cfg.chunk) (retries : ℕ)
    (small : retries + 1 < 2 ^ 32) where
  open node use {World}

  -- A success at a target, or a failure that is one of the program.
  abbrev pub EndsAt : ℕ → Result Failure (Unit {0}) × Sync World → Type 0
  EndsAt to (ok t, s) = s.map.cursor ≡ to
  EndsAt to (err (refused r), s) = Unit
  EndsAt to (err (failed e), s) = IsOrdinary e

  -- What the command is meant to end in.
  abbrev pub EndsWell : Target → World → Result Failure (Unit {0}) × Sync World → Type 0
  EndsWell target w r =
      (r.0 ≢ err (failed stuck))
      × (r.0 ≢ err (failed overflow))
      × (r.0 ≡ ok tt
          → (to : ℕ) × (w' : World) × (resolve_target node target w ≡ (ok to, w'))
            × (r.1.map.cursor ≡ to))
