-- ===== src/Follow/Syncer/Avoids.antt =====
-- Runs that do not end in an overflow of a block number.
use poulpy_eth_pir_demo.Base.{
  ℕ, zero, suc, ◌+◌, ◌/◌, max, ◌-◌, ◌≢◌, Bool, true, false, Option, none, some, List, [], ◌∷◌,
  length, nat_eq, if◌then◌else◌, arith,
}
use poulpy_eth_pir_demo.Base.Equality.{byte_list_eq}
use poulpy_eth_pir_demo.Base.Table.{Table}
use poulpy_eth_pir_demo.Base.Run.{Result, ok, err, Run, pure, lift, continue, ◌>>=◌, and_then}
use poulpy_eth_pir_demo.Tokens.{Address}
use poulpy_eth_pir_demo.Balances.{Reading}
use poulpy_eth_pir_demo.Chain.Node.{Node, CallResult, Fault, Message, overflow, of_rpc}
use poulpy_eth_pir_demo.Chain.Rpc.{
  read_balances, read_chunks, call_balance_chunk, insert_balance_results, insert_pairs,
  decode_balance, usdt_owner,
}
use poulpy_eth_pir_demo.Chain.Events.{Log, Touched}
use poulpy_eth_pir_demo.Follow.Apply.{
  apply_range, apply_touched, collect_addresses, add_usdt_owner_touches, or_panic, Outputs,
  apply_readings,
}
use poulpy_eth_pir_demo.Follow.Logs.{fetch_loop, narrow_range}
use poulpy_eth_pir_demo.Follow.Stats.{BatchStats, only_logs}
use poulpy_eth_pir_demo.Follow.Watch.{record_touched}
use poulpy_eth_pir_demo.Follow.Syncer.{
  Sync, FollowConfig, save, mark_snapshot, maybe_snapshot, apply_chunk,
}
use poulpy_eth_pir_demo.Follow.Syncer.Ends.{Post, Keeps, Always}

-- From a state where `P` holds, the run does not overflow.
pub record Avoids {S A : Type 0} (P : S → Type 0) (m : Run S Fault A) : Type 0 where
  pub avoids : (s : S) → P s → (m s).0 ≢ err overflow

module _ {S A B : Type 0} {P : S → Type 0} where
  pub bind-Avoids :
      {Q : A → S → Type 0} {R : S → Type 0} (m : Run S Fault A) (k : A → Run S Fault B)
      → Avoids P m
      → Keeps P m Q R
      → ((a : A) → Avoids (Q a) (k a))
      → Avoids P (m >>= k)
  bind-Avoids {Q = Q} {R = R} m k hm keeps hk = record {
    avoids = λ s p. go (m s) (hm.avoids s p) (keeps.post s p);
  }
    where
      go :
          (r : Result Fault A × S)
          → r.0 ≢ err overflow
          → Post Q R r
          → (continue r.0 k r.1).0 ≢ err overflow
      go (ok a, s) ne q = (hk a).avoids s q
      go (err e, s) ne q = λ h. ne (cc h)

module _ {S A B : Type 0} where
  -- Where the steps avoid it from any state.
  pub all-Avoids :
      (m : Run S Fault A) (k : A → Run S Fault B)
      → Avoids Always m
      → ((a : A) → Avoids Always (k a))
      → Avoids Always (m >>= k)
  all-Avoids m k hm hk = record { avoids = λ s p. go (m s) (hm.avoids s tt) }
    where
      go : (r : Result Fault A × S) → r.0 ≢ err overflow → (continue r.0 k r.1).0 ≢ err overflow
      go (ok a, s) ne = (hk a).avoids s tt
      go (err e, s) ne = λ h. ne (cc h)

module _ {S A : Type 0} where
  pub pure-Avoids : {P : S → Type 0} (a : A) → Avoids P (pure a)
  pure-Avoids a = record { avoids = λ s p h. cc }

  pub of_rpc-Avoids : {P : S → Type 0} (m : Run S Message A) → Avoids P (λ s. of_rpc (m s))
  of_rpc-Avoids m = record { avoids = λ s p. go (m s) }
    where
      go : (r : Result Message A × S) → (of_rpc r).0 ≢ err overflow
      go (ok a, s) h = cc
      go (err e, s) h = cc

  pub if-Avoids :
      {P : S → Type 0} (b : Bool) (m n : Run S Fault A)
      → Avoids P m
      → Avoids P n
      → Avoids P (if b then m else n)
  if-Avoids true m n h k = h
  if-Avoids false m n h k = k

  pub lift-Avoids : (r : Result Fault A) → r ≢ err overflow → Avoids {S = S} Always (lift r)
  lift-Avoids r ne = record { avoids = λ s p. ne }

module _ {A B : Type 0} where
  and_then-ne :
      (r : Result Fault A) (k : A → Result Fault B)
      → r ≢ err overflow
      → ((a : A) → k a ≢ err overflow)
      → and_then r k ≢ err overflow
  and_then-ne (ok a) k h hk = hk a
  and_then-ne (err e) k h hk = λ q. h (cc q)

decode_balance-ne : (r : CallResult) → decode_balance r ≢ err overflow
unfolding decode_balance
decode_balance-ne r h = ground arith

insert_pairs-ne :
    (addrs : List Address) (results : List CallResult) (out : Table Address Reading)
    → insert_pairs out addrs results ≢ err overflow
unfolding insert_pairs
insert_pairs-ne (addr ∷ rest) (usdt ∷ usdc ∷ results) out =
    and_then-ne (decode_balance usdt) _ (decode_balance-ne usdt) (λ a.
      and_then-ne (decode_balance usdc) _ (decode_balance-ne usdc)
        (λ b. insert_pairs-ne rest results _))
insert_pairs-ne (addr ∷ rest) (usdt ∷ []) out = λ h. cc
insert_pairs-ne (addr ∷ rest) [] out = λ h. cc
insert_pairs-ne [] results out = λ h. cc

insert_balance_results-ne :
    (out : Table Address Reading) (chunk : List Address) (results : List CallResult)
    → insert_balance_results out chunk results ≢ err overflow
unfolding insert_balance_results
insert_balance_results-ne out chunk results h = ground (arith, insert_pairs-ne chunk results out)

module _ (node : Node) where
  open node use {World, get_logs, write_file, now}

  read_chunks-Avoids :
      (out : Table Address Reading) (chunks : List (List Address)) (block : ℕ)
      → Avoids Always (read_chunks node out chunks block)
  unfolding read_chunks call_balance_chunk
  read_chunks-Avoids out [] block = pure-Avoids out
  read_chunks-Avoids out (chunk ∷ rest) block =
      all-Avoids (call_balance_chunk node chunk block) _ (of_rpc-Avoids _) (λ results.
        all-Avoids (lift (insert_balance_results out chunk results)) _
          (lift-Avoids _ (insert_balance_results-ne out chunk results))
          (λ out'. read_chunks-Avoids out' rest block))

  owner_touches-Avoids :
      (blocks : List ℕ) (touched : Touched)
      → Avoids Always (add_usdt_owner_touches node blocks touched)
  unfolding add_usdt_owner_touches usdt_owner
  owner_touches-Avoids [] touched = pure-Avoids touched
  owner_touches-Avoids (block ∷ rest) touched =
      all-Avoids (usdt_owner node block) _ (of_rpc-Avoids _) (λ owner. owner_touches-Avoids rest _)

  or_panic-Avoids : (o : Option Outputs) → Avoids Always (or_panic node o)
  unfolding or_panic
  or_panic-Avoids none = record { avoids = λ s p h. cc }
  or_panic-Avoids (some o) = record { avoids = λ s p h. cc }

  apply_touched-Avoids :
      (at : ℕ) (touched : Touched) (o : Outputs) → Avoids Always (apply_touched node at touched o)
  unfolding apply_touched read_balances
  apply_touched-Avoids at touched o =
      all-Avoids (read_balances node _ at) _ (read_chunks-Avoids [] _ at) (λ readings.
        all-Avoids (or_panic node (apply_readings touched readings o)) _ (or_panic-Avoids _)
          (λ o'. record { avoids = λ w q h. cc }))

  apply_range-Avoids :
      (logs : List Log) (at : ℕ) (o : Outputs) → Avoids Always (apply_range node logs at o)
  unfolding apply_range collect_addresses
  apply_range-Avoids logs at o =
      all-Avoids (collect_addresses node logs) _ (owner_touches-Avoids _ _) (λ touched.
        if-Avoids (nat_eq (length touched) 0) _ _ (record { avoids = λ w q h. cc })
          (apply_touched-Avoids at touched _))

  pub apply_chunk-Avoids :
      {P : Sync World → Type 0} (logs : List Log) (hi : ℕ) → Avoids P (apply_chunk node logs hi)
  unfolding apply_chunk
  apply_chunk-Avoids logs hi = record {
    avoids = λ s p.
        go s (apply_range node logs hi (outputs_of s) s.world)
          ((apply_range-Avoids logs hi (outputs_of s)).avoids s.world tt);
  }
    where
      outputs_of : Sync World → Outputs
      outputs_of s = record {
        map = s.map;
        inserted = s.inserted;
        changed = s.changed;
        stats = only_logs 0;
      }

      settle :
          Sync World
          → Result Fault (Outputs × List Address) × World
          → Result Fault BatchStats × Sync World
      settle s (ok (o, touched), w) = (
        ok o.stats,
        record s {
          world = w;
          map = o.map;
          inserted = o.inserted;
          changed = o.changed;
          watch = record_touched hi touched s.watch;
        },
      )
      settle s (err e, w) = (err e, record s { world = w })

      go :
          (s : Sync World) (r : Result Fault (Outputs × List Address) × World)
          → r.0 ≢ err overflow
          → (settle s r).0 ≢ err overflow
      go s (ok (o, touched), w) ne h = cc
      go s (err e, w) ne h = ne (cc h)

  pub fetch_loop-ne :
      (fuel from hi chunk : ℕ) (w : World) → (fetch_loop node fuel from hi chunk w).0 ≢ err overflow
  unfolding fetch_loop narrow_range
  fetch_loop-ne zero from hi chunk w h = cc
  fetch_loop-ne (suc fuel) from hi chunk w h = ground (
    arith,
    h,
    fetch_loop-ne fuel from (from + (hi - from) / 2) (max (chunk / 2) 1) (get_logs from hi w).1,
  )

  pub save-Avoids : {P : Sync World → Type 0} → Avoids P (save node)
  unfolding save
  save-Avoids = record { avoids = λ s p h. ground arith }

  pub maybe_snapshot-Avoids :
      {P : Sync World → Type 0} (cfg : FollowConfig) → Avoids P (maybe_snapshot node cfg)
  unfolding maybe_snapshot mark_snapshot save
  maybe_snapshot-Avoids cfg = record { avoids = λ s p h. ground arith }
