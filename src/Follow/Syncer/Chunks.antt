-- ===== src/Follow/Syncer/Chunks.antt =====
-- Syncing a range, chunk by chunk, ends whatever the node answers.
use poulpy_eth_pir_demo.Base.{
  ℕ, zero, suc, ◌+◌, ◌-◌, ◌≤◌, ◌<◌, ◌^◌, Option, none, some, min, ◌≡◌, ◌≢◌, refl, List, Bool-cases,
  inl, inr, leb, ltb, arith, true, false, ◌⊎◌, if◌then◌else◌,
}
use poulpy_eth_pir_demo.Base.Run.{Result, ok, err, ◌>>=◌, ◌>>◌}
use poulpy_eth_pir_demo.Tokens.{Address}
use poulpy_eth_pir_demo.Snapshot.{ErrorKind, write_snapshot_file}
use poulpy_eth_pir_demo.Follow.Watch.{record_touched}
use poulpy_eth_pir_demo.Chain.Events.{Log}
use poulpy_eth_pir_demo.Chain.Node.{Node, Fault, stuck, overflow, io}
use poulpy_eth_pir_demo.Follow.Stats.{BatchStats, only_logs}
use poulpy_eth_pir_demo.Follow.Apply.{apply_range, Outputs}
use poulpy_eth_pir_demo.Follow.Logs.{fetch_logs, Fetched}
use poulpy_eth_pir_demo.Follow.Logs.Narrowing.{IsFetched, fetch_logs-IsFetched}
use poulpy_eth_pir_demo.Follow.Syncer.{
  Sync, FollowConfig, save, mark_snapshot, maybe_snapshot, fetch, apply_chunk, set_cursor,
  chunk_end, block_after, sync_up_to, sync_one_chunk, chunk_loop, sync_chunks,
}
use poulpy_eth_pir_demo.Follow.Syncer.Ends.{Post, Keeps, bind-Keeps, Got, RangeKept}

module _ (node : Node) (cfg : FollowConfig) (from to : ℕ) (kept : RangeKept node) where
  open node use {World, now, write_file}
  open kept use {Holds, Applied, moved, ranged}

  -- Narrowed or not, and never to nothing.
  abbrev IsChunk : ℕ → Type 0
  IsChunk chunk = (1 ≤ chunk) × (chunk ≤ cfg.chunk)

  -- The next block is `lo`, in the range or just behind it, the chunk is positive and no wider than
  -- the one configured, and what has to be kept holds.
  abbrev pub At : ℕ → Sync World → Type 0
  At lo s =
      (s.map.cursor + 1 ≡ lo)
      × (from ≤ lo)
      × (lo ≤ to + 1)
      × IsChunk s.chunk
      × Holds s.map s.changed

  -- Where an error leaves the map.
  abbrev pub Within : Sync World → Type 0
  Within s = (from ≤ s.map.cursor + 1) × (s.map.cursor ≤ to) × Holds s.map s.changed

  -- Where a success leaves it.
  abbrev pub Done : Sync World → Type 0
  Done s = (s.map.cursor ≡ to) × Holds s.map s.changed

  pub fetch-Keeps :
      (lo want : ℕ)
      → lo ≤ want
      → want ≤ to
      → Keeps
          (At lo)
          (fetch node lo want)
          (λ f s. (lo ≤ f.1) × (f.1 ≤ to) × Got node lo f.1 f.0 × At lo s)
          Within
  unfolding fetch
  fetch-Keeps lo want h k = record {
    post = λ s (a, b, c, (d, d'), i).
        go s a b d' i (fetch_logs node lo want s.chunk s.world)
          (fetch_logs-IsFetched node lo want s.chunk s.world h d);
  }
    where
      go :
          (s : Sync World)
          → s.map.cursor + 1 ≡ lo
          → from ≤ lo
          → s.chunk ≤ cfg.chunk
          → Holds s.map s.changed
          → (f : Fetched node) → IsFetched node lo want s.chunk f
          → Post
              (λ f s. (lo ≤ f.1) × (f.1 ≤ to) × Got node lo f.1 f.0 × At lo s)
              Within
              (f.0, record s { world = f.1; chunk = f.2 })
      go s a b d i (ok (logs, hi), w, chunk) (p, q, r, t, (w₀, answered)) =
          (p, omega arith, (w₀, w, answered), (a, b, omega arith, (r, omega arith), i))
      go s a b d i (err e, w, chunk) (p, q, r) = (p, (omega arith, omega arith, i))

  pub apply_chunk-Keeps :
      (lo hi : ℕ) (logs : List Log)
      → lo ≤ hi
      → Got node lo hi logs
      → Keeps
          (At lo)
          (apply_chunk node logs hi)
          (λ stats s. IsChunk s.chunk × Applied hi s.map s.changed)
          Within
  unfolding apply_chunk
  apply_chunk-Keeps lo hi logs order got = record {
    post = λ s at.
        go s at (apply_range node logs hi (outputs_of s) s.world)
          ((ranged lo hi logs (outputs_of s) at.0 order got at.4).post s.world tt);
  }
    where
      outputs_of : Sync World → Outputs
      outputs_of s = record {
        map = s.map;
        inserted = s.inserted;
        changed = s.changed;
        stats = only_logs 0;
      }

      settle :
          Sync World
          → Result Fault (Outputs × List Address) × World
          → Result Fault BatchStats × Sync World
      settle s (ok (o, touched), w) = (
        ok o.stats,
        record s {
          world = w;
          map = o.map;
          inserted = o.inserted;
          changed = o.changed;
          watch = record_touched hi touched s.watch;
        },
      )
      settle s (err e, w) = (err e, record s { world = w })

      go :
          (s : Sync World)
          → At lo s
          → (r : Result Fault (Outputs × List Address) × World)
          → Post (λ o w. Applied hi o.0.map o.0.changed) (λ w. Unit) r
          → Post (λ stats t. IsChunk t.chunk × Applied hi t.map t.changed) Within (settle s r)
      go s (a, b, c, d, i) (ok (o, touched), w) h = (d, h)
      go s (a, b, c, d, i) (err e, w) (h, u) = (h, (omega arith, omega arith, i))

  pub set_cursor-Keeps :
      (lo hi : ℕ) (stats : BatchStats)
      → from ≤ lo
      → lo ≤ hi
      → hi ≤ to
      → Keeps
          (λ s. IsChunk s.chunk × Applied hi s.map s.changed)
          (set_cursor node hi stats)
          (λ t s. At (hi + 1) s)
          Within
  unfolding set_cursor
  set_cursor-Keeps lo hi stats f h k = record {
    post = λ s (d, i). (refl, omega arith, omega arith, d, moved s.map s.changed hi i);
  }

  io-ne-stuck : (e : ErrorKind) → io e ≢ stuck
  io-ne-stuck e h = cc

  At-Within : (next : ℕ) (s : Sync World) → At next s → Within s
  At-Within next s (a, b, c, d, i) = (omega arith, omega arith, i)

  mark_snapshot-Keeps : (next : ℕ) → Keeps (At next) (mark_snapshot node) (λ t s. At next s) Within
  unfolding mark_snapshot
  mark_snapshot-Keeps next = record { post = λ s at. at }

  save-Keeps : (next : ℕ) → Keeps (At next) (save node) (λ t s. At next s) Within
  unfolding save
  save-Keeps next = record {
    post = λ s at. go s at (write_file (write_snapshot_file s.map) s.world);
  }
    where
      settle :
          Sync World → Result ErrorKind (Unit {0}) × World → Result Fault (Unit {0}) × Sync World
      settle s (ok t, w) = (ok tt, record s { world = w })
      settle s (err k, w) = (err (io k), record s { world = w })

      go :
          (s : Sync World)
          → At next s
          → (r : Result ErrorKind (Unit {0}) × World) → Post (λ t u. At next u) Within (settle s r)
      go s at (ok t, w) = at
      go s at (err k, w) = (io-ne-stuck k, At-Within next s at)

  pub maybe_snapshot-Keeps :
      (next : ℕ) → Keeps (At next) (maybe_snapshot node cfg) (λ t s. At next s) Within
  unfolding maybe_snapshot
  maybe_snapshot-Keeps next = record { post = λ s at. go s at (now s.world) }
    where
      saved : Keeps (At next) (save node >> mark_snapshot node) (λ t s. At next s) Within
      saved = bind-Keeps (save node) _ (save-Keeps next) (λ t. mark_snapshot-Keeps next)

      go :
          (s : Sync World)
          → At next s
          → (tw : ℕ × World)
          → Post
              (λ t u. At next u)
              Within
              (if ltb (tw.0 - s.last_snapshot) cfg.snapshot_every
                then (ok tt, record s { world = tw.1 })
                else (save node >> mark_snapshot node) (record s { world = tw.1 }))
      go s at (t, w) = elim (Bool-cases (ltb (t - s.last_snapshot) cfg.snapshot_every)) [
        | inl early ↦ rw early at
        | inr late ↦ rw late (saved.post (record s { world = w }) at)
      ]

  block_after-Keeps :
      (lo hi : ℕ)
      → lo ≤ hi
      → Keeps (At (hi + 1)) (block_after node hi) (λ next s. At next s × (lo < next)) Within
  unfolding block_after
  block_after-Keeps lo hi p = record {
    post = λ s at. elim (Bool-cases (ltb (hi + 1) (2 ^ 64))) [
      | inl fits ↦ rw fits (at, omega arith)
      | inr past ↦ rw past (λ h. cc, At-Within (hi + 1) s at)
    ];
  }

  sync_up_to-Keeps :
      (lo want : ℕ)
      → lo ≤ want
      → want ≤ to
      → from ≤ lo
      → Keeps (At lo) (sync_up_to node cfg lo want) (λ next s. At next s × (lo < next)) Within
  unfolding sync_up_to
  sync_up_to-Keeps lo want p q f = bind-Keeps _ _ (fetch-Keeps lo want p q) (λ fetched. record {
    post = λ s (a, b, got, at). (applied fetched.0 fetched.1 a b got).post s at;
  })
    where
      applied :
          (logs : List Log) (hi : ℕ)
          → lo ≤ hi
          → hi ≤ to
          → Got node lo hi logs
          → Keeps
              (At lo)
              (do
                stats ← apply_chunk node logs hi
                set_cursor node hi stats
                maybe_snapshot node cfg
                block_after node hi)
              (λ next s. At next s × (lo < next))
              Within
      applied logs hi a b got = bind-Keeps _ _ (apply_chunk-Keeps lo hi logs a got) (λ stats.
          bind-Keeps _ _ (set_cursor-Keeps lo hi stats f a b)
            (λ t. bind-Keeps _ _ (maybe_snapshot-Keeps (hi + 1)) (λ u. block_after-Keeps lo hi a)))

  -- A round does a block at least.
  pub sync_one_chunk-Keeps :
      (lo : ℕ)
      → lo ≤ to
      → Keeps (At lo) (sync_one_chunk node cfg lo to) (λ next s. At next s × (lo < next)) Within
  unfolding sync_one_chunk
  sync_one_chunk-Keeps lo h = record { post = λ s at. go s at (chunk_end lo s.chunk) refl }
    where
      wide : (chunk end : ℕ) → 1 ≤ chunk → chunk_end lo chunk ≡ some end → lo ≤ min end to
      wide chunk end c e = unfold chunk_end in ground (arith, e)

      go :
          (s : Sync World)
          → At lo s
          → (o : Option ℕ) → chunk_end lo s.chunk ≡ o
          → Post
              (λ next s. At next s × (lo < next))
              Within
              (elim o as (λ x. Result Fault ℕ × Sync World) [
                | none ↦ (err overflow, s)
                | some end ↦ sync_up_to node cfg lo (min end to) s
              ])
      go s at none e = (λ h. cc, At-Within lo s at)
      go s at (some end) e =
          (sync_up_to-Keeps lo (min end to) (wide s.chunk end at.3.0 e) (omega arith) at.1).post s
            at

  chunk_loop-Keeps :
      (fuel lo : ℕ)
      → to + 1 - lo ≤ fuel
      → Keeps (At lo) (chunk_loop node fuel cfg lo to) (λ t s. Done s) Within
  unfolding chunk_loop
  chunk_loop-Keeps zero lo h = record {
    post = λ s (a, b, c, d, i).
        let done : leb lo to ≡ false = ground arith in rw done (omega arith, i);
  }
  chunk_loop-Keeps (suc fuel) lo h = record {
    post = λ s at. go (λ next. chunk_loop-Keeps fuel next) s at (Bool-cases (leb lo to));
  }
    where
      go :
          ((next : ℕ)
            → to + 1 - next ≤ fuel
            → Keeps (At next) (chunk_loop node fuel cfg next to) (λ t s. Done s) Within)
          → (s : Sync World) → At lo s
          → (leb lo to ≡ true) ⊎ (leb lo to ≡ false)
          → Post
              (λ t s. Done s)
              Within
              (if leb lo to
                then (sync_one_chunk node cfg lo to >>= λ next. chunk_loop node fuel cfg next to) s
                else (ok tt, s))
      go rec s at (inl more) = rw more (
          (bind-Keeps _ _ (sync_one_chunk-Keeps lo (ground arith))
              (λ next. record { post = λ t (at', l). (rec next (omega arith)).post t at' })).post
            s at)
      go rec s (a, b, c, d, i) (inr done) =
          let at_end : s.map.cursor ≡ to = ground arith in rw done (at_end, i)

  -- Syncing a range that is not empty, from the block after the cursor and with a positive chunk,
  -- ends whatever the node answers and whichever saves fail: its rounds are never used up. After a
  -- success the cursor is the end of the range; after a failure it is somewhere in the range, or
  -- just before it. In both cases what ranges and moves of the cursor keep still holds.
  pub sync_chunks-Within :
      (s : Sync World)
      → s.map.cursor + 1 ≡ from
      → from ≤ to
      → 1 ≤ cfg.chunk
      → Holds s.map s.changed
      → Post (λ t s'. Done s') Within (sync_chunks node cfg from to s)
  unfolding sync_chunks
  sync_chunks-Within s a h c i =
      (chunk_loop-Keeps (to + 1 - from) from (omega arith)).post (record s { chunk = cfg.chunk })
        (a, omega arith, omega arith, (c, omega arith), i)
