-- ===== src/Follow/Syncer/Ends.antt =====
-- Runs with a postcondition, whether they succeed or fail, and that no run of the chain's code is
-- cut off by the fuel of the model.
use poulpy_eth_pir_demo.Base.{
  arith, ◌≢◌, ◌≡◌, ◌+◌, ◌≤◌, refl, ℕ, nat_eq, length, List, [], ◌∷◌, Bool, true, false,
  if◌then◌else◌, Option, none, some,
}
use poulpy_eth_pir_demo.Base.Run.{Result, ok, err, Run, pure, lift, continue, ◌>>=◌, and_then}
use poulpy_eth_pir_demo.Chain.Node.{Node, CallResult, Fault, Message, stuck, of_rpc}
use poulpy_eth_pir_demo.Base.Table.{Table}
use poulpy_eth_pir_demo.Tokens.{Address}
use poulpy_eth_pir_demo.Balances.{Reading, BalanceMap}
use poulpy_eth_pir_demo.Publish.Current.{UpdateBatch}
use poulpy_eth_pir_demo.Chain.Rpc.{
  read_balances, read_chunks, call_balance_chunk, insert_balance_results, insert_pairs,
  decode_balance, usdt_owner,
}
use poulpy_eth_pir_demo.Chain.Events.{Log, Touched}
use poulpy_eth_pir_demo.Follow.Apply.{
  apply_range, apply_touched, collect_addresses, add_usdt_owner_touches, or_panic, Outputs,
  apply_readings,
}

-- What holds of an outcome: `Q` after a success, `R` after a failure, which is never a lack of fuel.
abbrev pub Post : {S A : Type 0} → (A → S → Type 0) → (S → Type 0) → Result Fault A × S → Type 0
Post Q R (ok a, s) = Q a s
Post Q R (err e, s) = (e ≢ stuck) × R s

pub record Keeps {S A : Type 0} (P : S → Type 0) (m : Run S Fault A) (Q : A → S → Type 0)
    (R : S → Type 0) : Type 0 where
  pub post : (s : S) → P s → Post Q R (m s)

-- A weaker postcondition.
pub Post-map :
    {S A : Type 0} {Q Q' : A → S → Type 0} (R : S → Type 0) (r : Result Fault A × S)
    → ((a : A) (s : S) → Q a s → Q' a s)
    → Post Q R r
    → Post Q' R r
Post-map R (ok a, s) f h = f a s h
Post-map R (err e, s) f h = h

module _ {S A B : Type 0} {P : S → Type 0} {Q : A → S → Type 0} {Q' : B → S → Type 0}
    {R : S → Type 0} where
  -- A step hands its postcondition to the rest.
  pub bind-Keeps :
      (m : Run S Fault A) (k : A → Run S Fault B)
      → Keeps P m Q R
      → ((a : A) → Keeps (Q a) (k a) Q' R)
      → Keeps P (m >>= k) Q' R
  bind-Keeps m k hm hk = record { post = λ s p. go (m s) (hm.post s p) }
    where
      go : (r : Result Fault A × S) → Post Q R r → Post Q' R (continue r.0 k r.1)
      go (ok a, s) h = (hk a).post s h
      go (err e, s) h = h

abbrev pub Always : {S : Type 0} → S → Type 0
Always s = Unit

abbrev pub AlwaysOf : {S A : Type 0} → A → S → Type 0
AlwaysOf a s = Unit

abbrev pub NeverStuck : {S A : Type 0} → Run S Fault A → Type 0
NeverStuck m = Keeps Always m AlwaysOf Always

-- A property of the map and of what is recorded as changed, which the cursor does not matter to and
-- which readings that are applied keep.
pub record Kept : Type 1 where
  pub Holds : BalanceMap → UpdateBatch → Type 0
  pub moved :
      (m : BalanceMap) (changed : UpdateBatch) (cursor : ℕ)
      → Holds m changed
      → Holds (record m { cursor = cursor }) changed
  pub applied :
      (touched : Touched) (readings : Table Address Reading) (o o' : Outputs)
      → Holds o.map o.changed
      → apply_readings touched readings o ≡ some o'
      → Holds o'.map o'.changed

module _ {S A B : Type 0} where
  pub bind-NeverStuck :
      (m : Run S Fault A) (k : A → Run S Fault B)
      → NeverStuck m
      → ((a : A) → NeverStuck (k a))
      → NeverStuck (m >>= k)
  bind-NeverStuck m k hm hk = bind-Keeps m k hm hk

module _ {S A : Type 0} where
  pub pure-NeverStuck : (a : A) → NeverStuck {S = S} (pure a)
  pure-NeverStuck a = record { post = λ s p. tt }

  pub if-Keeps :
      {P : S → Type 0} {Q : A → S → Type 0} {R : S → Type 0} (b : Bool) (m n : Run S Fault A)
      → Keeps P m Q R
      → Keeps P n Q R
      → Keeps P (if b then m else n) Q R
  if-Keeps true m n h k = h
  if-Keeps false m n h k = k

  pub of_rpc-NeverStuck : (m : Run S Message A) → NeverStuck (λ s. of_rpc (m s))
  of_rpc-NeverStuck m = record { post = λ s p. go (m s) }
    where
      go : (r : Result Message A × S) → Post {S = S} AlwaysOf Always (of_rpc r)
      go (ok a, s) = tt
      go (err e, s) = (λ h. cc, tt)

  lift-NeverStuck : (r : Result Fault A) → r ≢ err stuck → NeverStuck {S = S} (lift r)
  lift-NeverStuck (ok a) h = record { post = λ s p. tt }
  lift-NeverStuck (err e) h = record { post = λ s p. (λ q. h (cc q), tt) }

module _ {A B : Type 0} where
  and_then-ne :
      (r : Result Fault A) (k : A → Result Fault B)
      → r ≢ err stuck
      → ((a : A) → k a ≢ err stuck)
      → and_then r k ≢ err stuck
  and_then-ne (ok a) k h hk = hk a
  and_then-ne (err e) k h hk = λ q. h (cc q)

decode_balance-ne : (r : CallResult) → decode_balance r ≢ err stuck
unfolding decode_balance
decode_balance-ne r h = ground arith

insert_pairs-ne :
    (addrs : List Address) (results : List CallResult) (out : Table Address Reading)
    → insert_pairs out addrs results ≢ err stuck
unfolding insert_pairs
insert_pairs-ne (addr ∷ rest) (usdt ∷ usdc ∷ results) out =
    and_then-ne (decode_balance usdt) _ (decode_balance-ne usdt) (λ a.
      and_then-ne (decode_balance usdc) _ (decode_balance-ne usdc)
        (λ b. insert_pairs-ne rest results _))
insert_pairs-ne (addr ∷ rest) (usdt ∷ []) out = λ h. cc
insert_pairs-ne (addr ∷ rest) [] out = λ h. cc
insert_pairs-ne [] results out = λ h. cc

pub insert_balance_results-ne :
    (out : Table Address Reading) (chunk : List Address) (results : List CallResult)
    → insert_balance_results out chunk results ≢ err stuck
unfolding insert_balance_results
insert_balance_results-ne out chunk results h = ground (arith, insert_pairs-ne chunk results out)

module _ (node : Node) where
  open node use {World}

  read_chunks-NeverStuck :
      (out : Table Address Reading) (chunks : List (List Address)) (block : ℕ)
      → NeverStuck (read_chunks node out chunks block)
  unfolding read_chunks call_balance_chunk
  read_chunks-NeverStuck out [] block = pure-NeverStuck out
  read_chunks-NeverStuck out (chunk ∷ rest) block =
      bind-NeverStuck (call_balance_chunk node chunk block) _ (of_rpc-NeverStuck _) (λ results.
        bind-NeverStuck (lift (insert_balance_results out chunk results)) _
          (lift-NeverStuck _ (insert_balance_results-ne out chunk results))
          (λ out'. read_chunks-NeverStuck out' rest block))

  owner_touches-NeverStuck :
      (blocks : List ℕ) (touched : Touched)
      → NeverStuck (add_usdt_owner_touches node blocks touched)
  unfolding add_usdt_owner_touches usdt_owner
  owner_touches-NeverStuck [] touched = pure-NeverStuck touched
  owner_touches-NeverStuck (block ∷ rest) touched =
      bind-NeverStuck (usdt_owner node block) _ (of_rpc-NeverStuck _)
        (λ owner. owner_touches-NeverStuck rest _)

  pub or_panic-Keeps :
      {Q : Outputs → Type 0} (o : Option Outputs)
      → ((o' : Outputs) → o ≡ some o' → Q o')
      → Keeps Always (or_panic node o) (λ o' w. Q o') Always
  unfolding or_panic
  or_panic-Keeps none h = record { post = λ s p. (λ q. cc, tt) }
  or_panic-Keeps (some o) h = record { post = λ s p. h o refl }

  module _ (kept : Kept) where
    open kept use {Holds, applied}

    apply_touched-Keeps :
        (at : ℕ) (touched : Touched) (o : Outputs)
        → Holds o.map o.changed
        → Keeps Always (apply_touched node at touched o) (λ r w. Holds r.0.map r.0.changed) Always
    unfolding apply_touched read_balances
    apply_touched-Keeps at touched o h =
        bind-Keeps (read_balances node _ at) _ (read_chunks-NeverStuck [] _ at) (λ readings.
          bind-Keeps {Q = λ o' w. Holds o'.map o'.changed}
            (or_panic node (apply_readings touched readings o)) _
            (or_panic-Keeps _ (λ o' e. applied touched readings o o' h e))
            (λ o'. record { post = λ w q. q }))

    -- Applying a range keeps what applying readings keeps.
    pub apply_range-Keeps :
        (logs : List Log) (at : ℕ) (o : Outputs)
        → Holds o.map o.changed
        → Keeps Always (apply_range node logs at o) (λ r w. Holds r.0.map r.0.changed) Always
    unfolding apply_range collect_addresses
    apply_range-Keeps logs at o h =
        bind-Keeps (collect_addresses node logs) _ (owner_touches-NeverStuck _ _) (λ touched.
          if-Keeps (nat_eq (length touched) 0) _ _ (record { post = λ w q. h })
            (apply_touched-Keeps at touched _ h))

-- The node gave these logs for a range.
abbrev pub Got : (node : Node) → ℕ → ℕ → List Log → Type 0
Got node lo hi logs = (w : node.World) × (w' : node.World) × (node.get_logs lo hi w ≡ (ok logs, w'))

-- What holds of the map and of what is recorded as changed between two ranges, and once a range that
-- ends at a block has been applied and the cursor has not moved yet.
pub record RangeKept (node : Node) : Type 1 where
  pub Holds : BalanceMap → UpdateBatch → Type 0
  pub Applied : ℕ → BalanceMap → UpdateBatch → Type 0
  pub moved :
      (m : BalanceMap) (changed : UpdateBatch) (hi : ℕ)
      → Applied hi m changed
      → Holds (record m { cursor = hi }) changed
  pub ranged :
      (lo hi : ℕ) (logs : List Log) (o : Outputs)
      → o.map.cursor + 1 ≡ lo
      → lo ≤ hi
      → Got node lo hi logs
      → Holds o.map o.changed
      → Keeps Always (apply_range node logs hi o) (λ r w. Applied hi r.0.map r.0.changed) Always

-- What readings keep, ranges keep.
abbrev pub by_readings : (node : Node) → Kept → RangeKept node
by_readings node kept = record {
  Holds = kept.Holds;
  Applied = λ hi m changed. kept.Holds m changed;
  moved = λ m changed hi h. kept.moved m changed hi h;
  ranged = λ lo hi logs o next order got h. apply_range-Keeps node kept logs hi o h;
}
