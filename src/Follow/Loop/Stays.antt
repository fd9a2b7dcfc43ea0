-- ===== src/Follow/Loop/Stays.antt =====
-- The steps of a pass that leave the map, the changes and the watch alone.
use poulpy_eth_pir_demo.Base.{ℕ, Option, none, some, Bool-cases, inl, inr}
use poulpy_eth_pir_demo.Base.Run.{Result, ok, err, Run}
use poulpy_eth_pir_demo.Balances.{BalanceMap}
use poulpy_eth_pir_demo.Snapshot.{ErrorKind, write_snapshot_file}
use poulpy_eth_pir_demo.Publish.Current.{UpdateBatch}
use poulpy_eth_pir_demo.Chain.Node.{Node, Fault, io, of_rpc}
use poulpy_eth_pir_demo.Chain.Tip.{
  resolve, Tip, finalized, confirmations, finalized_block, or_no_block,
}
use poulpy_eth_pir_demo.Follow.Watch.{ChainWatch}
use poulpy_eth_pir_demo.Follow.Syncer.{Sync, FollowConfig, save, mark_snapshot}
use poulpy_eth_pir_demo.Follow.Syncer.Ends.{
  Post, Keeps, Always, AlwaysOf, NeverStuck, bind-NeverStuck, of_rpc-NeverStuck, pure-NeverStuck,
}
use poulpy_eth_pir_demo.Follow.Loop.{on_world, record_progress, record_finished}

module _ (node : Node) (cfg : FollowConfig)
    (I : BalanceMap → UpdateBatch → ChainWatch → Type 0) where
  open node use {World, write_file}

  abbrev pub Stays : {A : Type 0} → Run (Sync World) Fault A → Type 0
  Stays {A} m =
      Keeps (λ s. I s.map s.changed s.watch) m (λ (a : A) s. I s.map s.changed s.watch)
        (λ s. I s.map s.changed s.watch)

  pub save-Stays : Stays (save node)
  unfolding save
  save-Stays = record { post = λ s i. go s i (write_file (write_snapshot_file s.map) s.world) }
    where
      settle :
          Sync World → Result ErrorKind (Unit {0}) × World → Result Fault (Unit {0}) × Sync World
      settle s (ok t, w) = (ok tt, record s { world = w })
      settle s (err k, w) = (err (io k), record s { world = w })

      go :
          (s : Sync World)
          → I s.map s.changed s.watch
          → (r : Result ErrorKind (Unit {0}) × World)
          → Post (λ t u. I u.map u.changed u.watch) (λ u. I u.map u.changed u.watch) (settle s r)
      go s i (ok t, w) = i
      go s i (err k, w) = (λ h. cc, i)

  pub mark_snapshot-Stays : Stays (mark_snapshot node)
  unfolding mark_snapshot
  mark_snapshot-Stays = record { post = λ s i. i }

  pub record_progress-Stays : (cursor tip : ℕ) → Stays (record_progress node cfg cursor tip)
  unfolding record_progress
  record_progress-Stays cursor tip = record {
    post = λ s i. elim (Bool-cases (cfg.reports_progress)) [
      | inl reports ↦ rw reports i
      | inr silent ↦ rw silent i
    ];
  }

  pub record_finished-Stays : Stays (record_finished node cfg)
  unfolding record_finished
  record_finished-Stays = record { post = λ s i. (record_progress-Stays _ _).post s i }

  pub on_world-Stays : {A : Type 0} (m : Run World Fault A) → NeverStuck m → Stays (on_world node m)
  on_world-Stays {A = A} m h = record { post = λ s i. go s i (m s.world) (h.post s.world tt) }
    where
      go :
          (s : Sync World)
          → I s.map s.changed s.watch
          → (r : Result Fault A × World) → Post AlwaysOf Always r
          → Post
              (λ a u. I u.map u.changed u.watch)
              (λ u. I u.map u.changed u.watch)
              (r.0, record s { world = r.1 })
      go s i (ok a, w) h = i
      go s i (err e, w) h = (h.0, i)

module _ (node : Node) where
  open node use {World, finalized_number, get_block_number}

  pub finalized_block-NeverStuck : NeverStuck (finalized_block node)
  unfolding finalized_block or_no_block
  finalized_block-NeverStuck =
      bind-NeverStuck (λ w. of_rpc (finalized_number w)) (or_no_block node) (of_rpc-NeverStuck _)
        found
    where
      found : (block : Option ℕ) → NeverStuck (or_no_block node block)
      found none = record { post = λ w p. (λ h. cc, tt) }
      found (some n) = pure-NeverStuck n

  pub resolve-NeverStuck : (tip : Tip) → NeverStuck (resolve node tip)
  unfolding resolve
  resolve-NeverStuck finalized = finalized_block-NeverStuck
  resolve-NeverStuck (confirmations n) =
      bind-NeverStuck (λ w. of_rpc (get_block_number w)) _ (of_rpc-NeverStuck _)
        (λ head. pure-NeverStuck _)
