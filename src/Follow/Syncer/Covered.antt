-- ===== src/Follow/Syncer/Covered.antt =====
-- A range that was synced leaves changes that cover the map, for whatever copy of it the PIR side
-- held when the range was begun.
use poulpy_eth_pir_demo.Base.{ℕ, ◌+◌, ◌≤◌, ◌≡◌, ltb, arith, false}
use poulpy_eth_pir_demo.Base.Table
use poulpy_eth_pir_demo.Balances
use poulpy_eth_pir_demo.Balances.{BalanceMap}
use poulpy_eth_pir_demo.Balances.Invariant.{HoldsBalances, prune_zero_keeps}
use poulpy_eth_pir_demo.Publish.Current.{PirSnapshot, UpdateBatch}
use poulpy_eth_pir_demo.Chain.Node.{Node}
use poulpy_eth_pir_demo.Follow.Apply.Covers.{Covers, Serves, Serves-Covers, apply_readings-Covers}
use poulpy_eth_pir_demo.Follow.Syncer.{Sync, FollowConfig, prune_transient, sync_into, sync}
use poulpy_eth_pir_demo.Follow.Syncer.Ends.{Post, Keeps, RangeKept, by_readings, bind-Keeps}
use poulpy_eth_pir_demo.Follow.Syncer.Chunks.{Within, Done, sync_chunks-Within}

pub Covers-moved :
    (copy : PirSnapshot) (m : BalanceMap) (changed : UpdateBatch) (cursor : ℕ)
    → Covers copy m changed
    → Covers copy (record m { cursor = cursor }) changed
unfolding Balances.get
Covers-moved copy m changed cursor c = record {
  agrees = c.agrees;
  once = c.once;
  balances = record { once = c.balances.once; nonzero = c.balances.nonzero };
}

abbrev pub covering : (node : Node) → PirSnapshot → RangeKept node
covering node copy = by_readings node (record {
  Holds = Covers copy;
  moved = Covers-moved copy;
  applied = apply_readings-Covers copy;
})

module _ (node : Node) (cfg : FollowConfig) (from to : ℕ) (copy : PirSnapshot) where
  open node use {World}

  prune_transient-Keeps :
      Keeps
        (Done node cfg from to (covering node copy))
        (prune_transient node)
        (λ t s. Done node cfg from to (covering node copy) s)
        (Within node cfg from to (covering node copy))
  unfolding prune_transient
  prune_transient-Keeps = record {
    post =
        λ s (at_end, c). rw (prune_zero_keeps (Table.keys s.inserted) s.map c.balances) (at_end, c);
  }

  -- Let a range that is not empty begin right after the cursor, the chunk be positive, the map have
  -- no address twice and no record without a balance, and the PIR side's copy have the map's record
  -- of every holder. Whatever the node answers, a sync that succeeds moves the cursor to the end of
  -- the range, one that fails leaves it in the range or just before it, and in both cases the changes
  -- recorded cover the map.
  pub sync-Covers :
      (s : Sync World)
      → s.map.cursor + 1 ≡ from
      → from ≤ to
      → 1 ≤ cfg.chunk
      → HoldsBalances s.map
      → Serves copy s.map
      → Post
          (λ t s'. Done node cfg from to (covering node copy) s')
          (Within node cfg from to (covering node copy))
          (sync node cfg from to s)
  unfolding sync sync_into
  sync-Covers s a h c balances serves =
      let not_empty : ltb to from ≡ false = ground arith in
      rw not_empty (
        (bind-Keeps {P = λ t. (t.map.cursor + 1 ≡ from) × Covers copy t.map t.changed} _ _
            (record {
              post = λ t (e, i). sync_chunks-Within node cfg from to (covering node copy) t e h c i;
            })
            (λ t. prune_transient-Keeps)).post
          _ (a, Serves-Covers copy s.map balances serves))
