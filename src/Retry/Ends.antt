-- ===== src/Retry/Ends.antt =====
-- A sync that tries again ends, whatever the node answers.
use poulpy_eth_pir_demo.Base.{
  ℕ, zero, suc, ◌+◌, ◌-◌, ◌*◌, ◌^◌, ◌≤◌, ◌<◌, ◌≡◌, ◌≢◌, ◌⊎◌, Option, none, some, false, true, inl,
  inr, refl, ltb, arith, Bool-cases,
}
use poulpy_eth_pir_demo.Base.Run.{Result, ok, err}
use poulpy_eth_pir_demo.Base.Equality.{byte_list_eq}
use poulpy_eth_pir_demo.Base.Table
use poulpy_eth_pir_demo.Balances.{BalanceMap, prune_zero}
use poulpy_eth_pir_demo.Balances.Invariant.{cursor-prune_each}
use poulpy_eth_pir_demo.Chain.Node.{Node, Fault, stuck, overflow, is_panic}
use poulpy_eth_pir_demo.Follow.Syncer.{
  Sync, FollowConfig, save, mark_snapshot, prune_transient, sync_into, sync_chunks,
}
use poulpy_eth_pir_demo.Follow.Syncer.Ends.{Post, Keeps, RangeKept, by_readings, bind-Keeps}
use poulpy_eth_pir_demo.Follow.Syncer.Chunks.{Within, Done}
use poulpy_eth_pir_demo.Follow.Syncer.Fits.{sync_chunks-Ends}
use poulpy_eth_pir_demo.Follow.Syncer.Avoids.{Avoids, bind-Avoids}
use poulpy_eth_pir_demo.Retry.{
  Attempt, ended, again, attempt, settle_attempt, finish_sync, wait_to_retry, set_blocks,
  save_failed_progress, prepare_replay, first_to_sync, record_retry_progress, sync_once, retry_loop,
  run_sync,
}

abbrev nothing_kept : (node : Node) → RangeKept node
nothing_kept node = by_readings node (record {
  Holds = λ m changed. Unit;
  moved = λ m changed cursor h. tt;
  applied = λ touched readings o o' h e. tt;
})

mul-le : (x y k : ℕ) → x ≤ y → x * k ≤ y * k
mul-le x y k h = grind arith

mul-step : (x y k : ℕ) → x + 1 ≤ y → x * k + k ≤ y * k
mul-step x y k h = grind arith

-- Neither a lack of fuel, nor an overflow of a block number.
abbrev pub IsOrdinary : Fault → Type 0
IsOrdinary e = (e ≢ stuck) × (e ≢ overflow)

-- A success leaves the cursor at a block, and the error of a failure is ordinary.
abbrev pub Finishes : {World : Type 0} → ℕ → Result Fault (Unit {0}) × Sync World → Type 0
Finishes to (ok t, s) = s.map.cursor ≡ to
Finishes to (err e, s) = IsOrdinary e

module _ (node : Node) (cfg : FollowConfig) (to : ℕ) (chunk : 1 ≤ cfg.chunk)
    (fits : to + cfg.chunk < 2 ^ 64) where
  open node use {World, write_file}

  -- Where one attempt leaves the cursor.
  abbrev Reached : ℕ → Result Fault (Unit {0}) × Sync World → Type 0
  Reached start r =
      Post (λ t s. s.map.cursor ≡ to) (Within node cfg start to (nothing_kept node)) r
      × (r.0 ≢ err overflow)

  prune_transient-Reached :
      (start : ℕ)
      → Keeps
          (Done node cfg start to (nothing_kept node))
          (prune_transient node)
          (λ t s. s.map.cursor ≡ to)
          (Within node cfg start to (nothing_kept node))
  unfolding prune_transient prune_zero
  prune_transient-Reached start = record {
    post = λ s (e, h). ground (arith, cursor-prune_each (Table.keys s.inserted) s.map);
  }

  prune_transient-Avoids : {P : Sync World → Type 0} → Avoids P (prune_transient node)
  unfolding prune_transient
  prune_transient-Avoids = record { avoids = λ s p h. cc }

  sync_once-Reached :
      (start : ℕ) (s : Sync World)
      → s.map.cursor + 1 ≡ start
      → start ≤ to
      → Reached start (sync_once node cfg start to s)
  unfolding sync_once mark_snapshot sync_into
  sync_once-Reached start s e h =
      let not_empty : ltb to start ≡ false = ground arith in
      rw not_empty (
        (bind-Keeps _ _ (chunks start h) (λ t. prune_transient-Reached start)).post _ e,
        (bind-Avoids _ _
              (record {
                avoids = λ t e.
                    (sync_chunks-Ends node cfg start to (nothing_kept node) fits t e h chunk tt).1;
              })
              (chunks start h) (λ t. prune_transient-Avoids)).avoids
            _ e,
      )
    where
      chunks :
          (start : ℕ)
          → start ≤ to
          → Keeps
              (λ t. t.map.cursor + 1 ≡ start)
              (sync_chunks node cfg start to)
              (λ t s. Done node cfg start to (nothing_kept node) s)
              (Within node cfg start to (nothing_kept node))
      chunks start h = record {
        post =
            λ t e. (sync_chunks-Ends node cfg start to (nothing_kept node) fits t e h chunk tt).0;
      }

  cursor-save : (s : Sync World) → (save node s).1.map ≡ s.map
  unfolding save
  cursor-save s = ground arith

  -- What an attempt that began at a cursor, after so many that were stalled, may say.
  abbrev IsAttempt : ℕ → ℕ → ℕ → Attempt node → Type 0
  IsAttempt retries before stalled (ended (ok t) s) = s.map.cursor ≡ to
  IsAttempt retries before stalled (ended (err e) s) = IsOrdinary e
  IsAttempt retries before stalled (again stalled' s) =
      (before ≤ s.map.cursor)
      × (s.map.cursor < to)
      × (stalled' ≤ retries)
      × ((before < s.map.cursor) ⊎ (stalled' ≡ stalled + 1))

  wait_to_retry-IsAttempt :
      (origin before retries stalled : ℕ) (e : Fault) (s : Sync World)
      → IsOrdinary e
      → stalled ≤ retries
      → retries + 1 < 2 ^ 32
      → before ≤ s.map.cursor
      → s.map.cursor ≤ to
      → IsAttempt retries before stalled (wait_to_retry node origin to before retries stalled e s)
  unfolding wait_to_retry save_failed_progress set_blocks record_retry_progress
  wait_to_retry-IsAttempt origin before retries stalled e s ne few small b t =
      go (Bool-cases (ltb retries stalled')) (Bool-cases (ltb to (s'.map.cursor + 1)))
    where
      s' : Sync World
      s' = (save node s).1

      stalled' : ℕ
      stalled' = record_retry_progress (s.map.cursor - before) stalled

      go :
          (ltb retries stalled' ≡ true) ⊎ (ltb retries stalled' ≡ false)
          → (ltb to (s'.map.cursor + 1) ≡ true) ⊎ (ltb to (s'.map.cursor + 1) ≡ false)
          → IsAttempt retries before stalled
              (wait_to_retry node origin to before retries stalled e s)
      go (inl out) q = rw out ne
      go (inr p) (inl at_end) = rw (p, at_end) (ground (arith, cursor-save s))
      go (inr p) (inr more) =
          rw (p, more)
            (
              ground (arith, cursor-save s),
              ground (arith, cursor-save s),
              ground arith,
              ground (arith, cursor-save s),
            )

  save-ne : (s : Sync World) → ((save node s).0 ≢ err stuck) × ((save node s).0 ≢ err overflow)
  unfolding save
  save-ne s = (λ h. ground arith, λ h. ground arith)

  finish_sync-IsAttempt :
      (origin retries before stalled : ℕ) (s : Sync World)
      → s.map.cursor ≡ to
      → IsAttempt retries before stalled (finish_sync node origin s)
  unfolding finish_sync
  finish_sync-IsAttempt origin retries before stalled s e =
      go (save node (set_blocks node origin s)) (save-ne (set_blocks node origin s))
        (cursor-save (set_blocks node origin s))
    where
      go :
          (r : Result Fault (Unit {0}) × Sync World)
          → (r.0 ≢ err stuck) × (r.0 ≢ err overflow)
          → r.1.map ≡ (set_blocks node origin s).map
          → IsAttempt retries before stalled (ended r.0 r.1)
      go (ok t, s') ne same = unfold set_blocks in ground (arith, same)
      go (err x, s') (ne, over) same = (λ h. ne (cc h), λ h. over (cc h))

  attempt-IsAttempt :
      (origin start retries stalled : ℕ) (s : Sync World)
      → s.map.cursor + 1 ≡ start
      → start ≤ to
      → stalled ≤ retries
      → retries + 1 < 2 ^ 32
      → IsAttempt retries s.map.cursor stalled (attempt node cfg origin start to retries stalled s)
  unfolding attempt settle_attempt
  attempt-IsAttempt origin start retries stalled s e h few small =
      go (sync_once node cfg start to s) (sync_once-Reached start s e h)
    where
      go :
          (r : Result Fault (Unit {0}) × Sync World)
          → Reached start r
          → IsAttempt retries s.map.cursor stalled
              (settle_attempt node origin to s.map.cursor retries stalled r)
      go (ok t, s') (reached, over) =
          finish_sync-IsAttempt origin retries s.map.cursor stalled s' reached
      go (err x, s') ((ne, (low, high, u)), over) = elim (Bool-cases (is_panic x)) [
        | inl panicked ↦ rw panicked (ne, λ h. over (cc h))
        | inr failed ↦ rw failed (
            wait_to_retry-IsAttempt origin s.map.cursor retries stalled x s' (ne, λ h. over (cc h))
              few small (omega arith) high)
      ]

  -- How many attempts may be left.
  abbrev left : ℕ → ℕ → ℕ → ℕ
  left retries stalled cursor = (to - cursor) * (retries + 1) + (retries - stalled)

  left-again :
      (retries stalled stalled' before cursor : ℕ)
      → cursor ≤ to
      → before ≤ cursor
      → stalled' ≤ retries
      → (before < cursor) ⊎ (stalled' ≡ stalled + 1)
      → left retries stalled' cursor < left retries stalled before
  left-again retries stalled stalled' before cursor a b c (inl moved) =
      omega (arith, mul-step (to - cursor) (to - before) (retries + 1) (omega arith))
  left-again retries stalled stalled' before cursor a b c (inr failed) =
      omega (arith, mul-le (to - cursor) (to - before) (retries + 1) (omega arith))

  -- After a success the cursor is the end of the range; the error of a failure is an error of the
  -- program.
  retry_loop-Ends :
      (fuel origin start retries stalled : ℕ) (s : Sync World)
      → s.map.cursor + 1 ≡ start
      → start ≤ to
      → stalled ≤ retries
      → retries + 1 < 2 ^ 32
      → left retries stalled s.map.cursor < fuel
      → Finishes to (retry_loop node fuel cfg origin start to retries stalled s)
  unfolding retry_loop
  retry_loop-Ends zero origin start retries stalled s e h few small f = absurd (omega arith)
  retry_loop-Ends (suc fuel) origin start retries stalled s e h few small f =
      go (attempt node cfg origin start to retries stalled s)
        (attempt-IsAttempt origin start retries stalled s e h few small)
        (λ stalled' s' more few'.
          retry_loop-Ends fuel origin (s'.map.cursor + 1) retries stalled' s' refl more few' small)
    where
      go :
          (a : Attempt node)
          → IsAttempt retries s.map.cursor stalled a
          → ((stalled' : ℕ) (s' : Sync World)
              → s'.map.cursor + 1 ≤ to
              → stalled' ≤ retries
              → left retries stalled' s'.map.cursor < fuel
              → Finishes to
                  (retry_loop node fuel cfg origin (s'.map.cursor + 1) to retries stalled' s'))
          → Finishes to (elim a as (λ x. Result Fault (Unit {0}) × Sync World) [
            | ended r s' ↦ (r, s')
            | again stalled' s' ↦
                retry_loop node fuel cfg origin (s'.map.cursor + 1) to retries stalled' s'
          ])
      go (ended (ok t) s') at_end rec = at_end
      go (ended (err x) s') ne rec = ne
      go (again stalled' s') (b, more, few', progress) rec = rec stalled' s' (omega arith) few' (
          omega (
            arith,
            left-again retries stalled stalled' s.map.cursor s'.map.cursor (omega arith) b few'
                progress,
          ))

-- The block to begin at leaves no gap after the cursor, and is not block 0.
abbrev pub LeavesNoGap : Option ℕ → ℕ → Type 0
LeavesNoGap none cursor = Unit
LeavesNoGap (some from) cursor = (1 ≤ from) × (from ≤ cursor + 1)

first_to_sync_lem :
    (from : Option ℕ) (m : BalanceMap)
    → LeavesNoGap from m.cursor
    → (prepare_replay from m).1.cursor + 1 ≡ (prepare_replay from m).0
unfolding prepare_replay first_to_sync
first_to_sync_lem none m h = ground arith
first_to_sync_lem (some from) m h = ground arith

-- The sync command, from its replay on, ends whatever the node answers, whichever saves fail and
-- however often it has to try again, if the block to begin at leaves no gap after the cursor, is not
-- block 0 and not past the end, the chunk is positive, the end and the chunk together are below 2^64,
-- and the count of retries is not the largest of 32 bits. If it succeeds, the map's cursor is the end
-- of the range; and a failure is neither that the attempts counted were used up, nor an overflow of a
-- block number.
pub run_sync-Ends :
    (node : Node) (cfg : FollowConfig) (from : Option ℕ) (to retries : ℕ) (s : Sync node.World)
    → LeavesNoGap from s.map.cursor
    → (prepare_replay from s.map).0 ≤ to
    → 1 ≤ cfg.chunk
    → to + cfg.chunk < 2 ^ 64
    → retries + 1 < 2 ^ 32
    → let (start, m) = prepare_replay from s.map in
      Finishes to (run_sync node cfg start to retries (record s { map = m }))
unfolding run_sync
run_sync-Ends node cfg from to retries s gap h chunk fits small =
    let adjacent : (prepare_replay from s.map).1.cursor + 1 ≡ (prepare_replay from s.map).0 =
      first_to_sync_lem from s.map gap in
    retry_loop-Ends node cfg to chunk fits _ _ _ retries 0 _ adjacent h (omega arith) small (
      omega (
        arith,
        adjacent,
        mul-le (to - (prepare_replay from s.map).1.cursor) (to + 1 - (prepare_replay from s.map).0)
            (retries + 1) (omega (arith, adjacent)),
      ))
