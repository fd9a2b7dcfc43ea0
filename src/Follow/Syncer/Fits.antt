-- ===== src/Follow/Syncer/Fits.antt =====
-- Syncing a range whose block numbers fit 64 bits, with the width of a chunk to spare.
use poulpy_eth_pir_demo.Base.{
  ℕ, zero, suc, ◌+◌, ◌-◌, ◌≤◌, ◌<◌, ◌^◌, ◌≡◌, ◌≢◌, some, List, min, Bool-cases, inl, inr, leb, ltb,
  arith, true, false, ◌⊎◌, if◌then◌else◌,
}
use poulpy_eth_pir_demo.Base.Run.{ok, err, ◌>>=◌, ◌>>◌}
use poulpy_eth_pir_demo.Chain.Events.{Log}
use poulpy_eth_pir_demo.Chain.Node.{Node, overflow}
use poulpy_eth_pir_demo.Follow.Stats.{BatchStats}
use poulpy_eth_pir_demo.Follow.Logs.{fetch_logs}
use poulpy_eth_pir_demo.Follow.Syncer.{
  Sync, FollowConfig, maybe_snapshot, fetch, apply_chunk, set_cursor, chunk_end, block_after,
  sync_up_to, sync_one_chunk, chunk_loop, sync_chunks,
}
use poulpy_eth_pir_demo.Follow.Syncer.Ends.{Post, RangeKept, Got}
use poulpy_eth_pir_demo.Follow.Syncer.Avoids.{
  Avoids, bind-Avoids, apply_chunk-Avoids, fetch_loop-ne, maybe_snapshot-Avoids,
}
use poulpy_eth_pir_demo.Follow.Syncer.Chunks.{
  At, Within, Done, fetch-Keeps, apply_chunk-Keeps, set_cursor-Keeps, maybe_snapshot-Keeps,
  sync_one_chunk-Keeps, sync_chunks-Within,
}

module _ (node : Node) (cfg : FollowConfig) (from to : ℕ) (kept : RangeKept node)
    (fits : to + cfg.chunk < 2 ^ 64) where
  open node use {World}
  open kept use {Holds, Applied}

  abbrev Here : ℕ → Sync World → Type 0
  Here = At node cfg from to kept

  fetch-Avoids : {P : Sync World → Type 0} (lo want : ℕ) → Avoids P (fetch node lo want)
  unfolding fetch fetch_logs
  fetch-Avoids lo want = record { avoids = λ s p. fetch_loop-ne node _ lo want s.chunk s.world }

  set_cursor-Avoids :
      {P : Sync World → Type 0} (hi : ℕ) (stats : BatchStats) → Avoids P (set_cursor node hi stats)
  unfolding set_cursor
  set_cursor-Avoids hi stats = record { avoids = λ s p h. cc }

  -- The number of the block after the range fits.
  block_after-Avoids : (hi : ℕ) → Avoids (Here (hi + 1)) (block_after node hi)
  unfolding block_after
  block_after-Avoids hi = record {
    avoids = λ s (a, b, c, (d, d'), i).
        let small : ltb (hi + 1) (2 ^ 64) ≡ true = ground arith in rw small (λ h. cc);
  }

  sync_up_to-Avoids :
      (lo want : ℕ)
      → lo ≤ want
      → want ≤ to
      → from ≤ lo
      → Avoids (Here lo) (sync_up_to node cfg lo want)
  unfolding sync_up_to
  sync_up_to-Avoids lo want p q f =
      bind-Avoids _ _ (fetch-Avoids lo want) (fetch-Keeps node cfg from to kept lo want p q)
        (λ fetched. record {
          avoids = λ s (a, b, got, at). (applied fetched.0 fetched.1 a b got).avoids s at;
        })
    where
      applied :
          (logs : List Log) (hi : ℕ)
          → lo ≤ hi
          → hi ≤ to
          → Got node lo hi logs
          → Avoids (Here lo) (do
            stats ← apply_chunk node logs hi
            set_cursor node hi stats
            maybe_snapshot node cfg
            block_after node hi)
      applied logs hi a b got =
          bind-Avoids _ _ (apply_chunk-Avoids node logs hi)
            (apply_chunk-Keeps node cfg from to kept lo hi logs a got)
            (λ stats.
              bind-Avoids _ _ (set_cursor-Avoids hi stats)
                (set_cursor-Keeps node cfg from to kept lo hi stats f a b)
                (λ t.
                  bind-Avoids _ _ (maybe_snapshot-Avoids node cfg)
                    (maybe_snapshot-Keeps node cfg from to kept (hi + 1))
                    (λ u. block_after-Avoids hi)))

  sync_one_chunk-Avoids : (lo : ℕ) → lo ≤ to → Avoids (Here lo) (sync_one_chunk node cfg lo to)
  unfolding sync_one_chunk chunk_end
  sync_one_chunk-Avoids lo h = record {
    avoids = λ s at.
        let (a, b, c, (d, d'), i) = at in
        let small : chunk_end lo s.chunk ≡ some (lo + s.chunk - 1) =
          ground (arith, d, d', h, fits) in
        rw (small, sync_one_chunk)
          ((sync_up_to-Avoids lo (min (lo + s.chunk - 1) to) (omega (arith, d, h)) (omega arith)
              b).avoids
            s at);
  }

  chunk_loop-Avoids :
      (fuel lo : ℕ) → to + 1 - lo ≤ fuel → Avoids (Here lo) (chunk_loop node fuel cfg lo to)
  unfolding chunk_loop
  chunk_loop-Avoids zero lo h = record {
    avoids = λ s (a, b, c, d, i). let done : leb lo to ≡ false = ground arith in rw done (λ h. cc);
  }
  chunk_loop-Avoids (suc fuel) lo h = record {
    avoids = λ s at. go (λ next. chunk_loop-Avoids fuel next) s at (Bool-cases (leb lo to));
  }
    where
      go :
          ((next : ℕ)
            → to + 1 - next ≤ fuel
            → Avoids (Here next) (chunk_loop node fuel cfg next to))
          → (s : Sync World) → Here lo s
          → (leb lo to ≡ true) ⊎ (leb lo to ≡ false)
          → (if leb lo to
              then (sync_one_chunk node cfg lo to >>= λ next. chunk_loop node fuel cfg next to) s
              else (ok tt, s)).0
            ≢ err overflow
      go rec s at (inl more) = rw more (
          (bind-Avoids _ _ (sync_one_chunk-Avoids lo (ground arith))
              (sync_one_chunk-Keeps node cfg from to kept lo (ground arith))
              (λ next. record {
                avoids = λ t (at', l). (rec next (omega arith)).avoids t at';
              })).avoids
            s at)
      go rec s at (inr done) = rw done (λ h. cc)

  -- Syncing a range that is not empty, from the block after the cursor and with a positive chunk, where
  -- the range's end and the chunk together are below 2^64, ends whatever the node answers and
  -- whichever saves fail: its rounds are never used up, and no block number overflows. After a success
  -- the cursor is the end of the range; after a failure it is somewhere in the range, or just before
  -- it. In both cases what ranges and moves of the cursor keep still holds.
  pub sync_chunks-Ends :
      (s : Sync World)
      → s.map.cursor + 1 ≡ from
      → from ≤ to
      → 1 ≤ cfg.chunk
      → Holds s.map s.changed
      → Post
          (λ t s'. Done node cfg from to kept s')
          (Within node cfg from to kept)
          (sync_chunks node cfg from to s)
        × ((sync_chunks node cfg from to s).0 ≢ err overflow)
  unfolding sync_chunks
  sync_chunks-Ends s a h c i = (
    sync_chunks-Within node cfg from to kept s a h c i,
    (chunk_loop-Avoids (to + 1 - from) from (omega arith)).avoids (record s { chunk = cfg.chunk })
        (a, omega arith, omega arith, (c, omega arith), i),
  )
