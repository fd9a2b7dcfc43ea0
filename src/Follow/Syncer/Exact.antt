-- ===== src/Follow/Syncer/Exact.antt =====
-- Over an honest node the map stays right: what it says of an address at its cursor is what the
-- address has there.
use poulpy_eth_pir_demo.Base.{
  ℕ, ◌+◌, ◌≤◌, ◌≡◌, refl, sym, ap, subst, ◌∙◌, ◌⊎◌, inl, inr, List, [], ◌∷◌, none, some, true,
  false, Bool-cases, ltb, arith, Option-cases,
}
use poulpy_eth_pir_demo.Base.Equality.{◌==◌, byte_list_eq, bytes_eq_iff}
use poulpy_eth_pir_demo.Base.Table
use poulpy_eth_pir_demo.Base.Run.{Result, ok, err}
use poulpy_eth_pir_demo.Tokens.{Address}
use poulpy_eth_pir_demo.Record.{Entry}
use poulpy_eth_pir_demo.Record
use poulpy_eth_pir_demo.Balances.{Reading, BalanceMap, remove_if_zero, prune_each, prune_zero}
use poulpy_eth_pir_demo.Balances
use poulpy_eth_pir_demo.Balances.Invariant.{cursor-prune_each}
use poulpy_eth_pir_demo.Publish.Current.{UpdateBatch}
use poulpy_eth_pir_demo.Chain.Events.{Log}
use poulpy_eth_pir_demo.Chain.Events.Words.{IsHolder}
use poulpy_eth_pir_demo.Chain.Node.{Node, Fault}
use poulpy_eth_pir_demo.Chain.Rpc.Exact.{AnswersAt}
use poulpy_eth_pir_demo.Follow.Apply.{Outputs, apply_range}
use poulpy_eth_pir_demo.Follow.Apply.Exact.{said, balances_of}
use poulpy_eth_pir_demo.Follow.Apply.Ranges.{AnswersOwner, TellsOf, apply_range-exact}
use poulpy_eth_pir_demo.Follow.Syncer.{Sync, FollowConfig, prune_transient, sync_into, sync}
use poulpy_eth_pir_demo.Follow.Syncer.Ends.{
  Post, Post-map, Keeps, Always, RangeKept, Got, bind-Keeps,
}
use poulpy_eth_pir_demo.Follow.Syncer.Chunks.{Within, Done, sync_chunks-Within}

-- A node that answers with what is on the chain: the balances at each block, the owner of the USDT
-- contract, and logs that tell of an address if its balances are others at the end of a range than
-- before it.
pub record IsHonest (node : Node) (truth : ℕ → Address → Reading) (treasury : ℕ → Address)
    (j : Address) : Type 0 where
  pub balances : (block : ℕ) → AnswersAt node block (truth block)
  pub owners : AnswersOwner node treasury
  pub tells :
      (cursor hi : ℕ) (logs : List Log)
      → cursor + 1 ≤ hi
      → Got node (cursor + 1) hi logs
      → (truth hi j ≡ truth cursor j) ⊎ TellsOf treasury logs j

remove_if_zero-said : (a j : Address) (m : BalanceMap) → said j (remove_if_zero a m) ≡ said j m
unfolding remove_if_zero Balances.get
remove_if_zero-said a j m = elim (Option-cases (Table.get a m.inner)) [
  | inl gone ↦ rw gone refl
  | inr (e, held) ↦ elim (Bool-cases (Record.is_zero e)) [
    | inl zero ↦ rw (held, zero) (removed e held zero (Bool-cases (a == j)))
    | inr nonzero ↦ rw (held, nonzero) refl
  ]
]
  where
    without : (e : Entry) → Record.is_zero e ≡ true → balances_of none ≡ balances_of (some e)
    without e zero = unfold Record.is_zero in ground (arith, zero)

    removed :
        (e : Entry)
        → Table.get a m.inner ≡ some e
        → Record.is_zero e ≡ true
        → (a == j ≡ true) ⊎ (a == j ≡ false)
        → balances_of (Table.get j (Table.remove a m.inner)) ≡ balances_of (Table.get j m.inner)
    removed e held zero (inl here) =
        ap balances_of {y = none} (Table.get-remove a j m.inner ∙ rw here refl)
        ∙ without e zero
        ∙ ap balances_of (sym held ∙ ap (λ k. Table.get k m.inner) ((bytes_eq_iff a j).0 here))
    removed e held zero (inr there) =
        ap balances_of {y = Table.get j m.inner} (Table.get-remove a j m.inner ∙ rw there refl)

prune_each-said :
    (candidates : List Address) (j : Address) (m : BalanceMap)
    → said j (prune_each candidates m) ≡ said j m
unfolding prune_each
prune_each-said [] j m = refl
prune_each-said (a ∷ rest) j m =
    prune_each-said rest j (remove_if_zero a m) ∙ remove_if_zero-said a j m

-- Moving the cursor changes no record.
pub said-moved :
    (j : Address) (m : BalanceMap) (cursor : ℕ) → said j (record m { cursor = cursor }) ≡ said j m
unfolding Balances.get
said-moved j m cursor = refl

module _ (node : Node) (truth : ℕ → Address → Reading) (treasury : ℕ → Address) (j : Address)
    (holder : IsHolder j) (honest : IsHonest node truth treasury j) where
  open node use {World}

  pub ranged-right :
      (lo hi : ℕ) (logs : List Log) (o : Outputs)
      → o.map.cursor + 1 ≡ lo
      → lo ≤ hi
      → Got node lo hi logs
      → said j o.map ≡ truth o.map.cursor j
      → Keeps Always (apply_range node logs hi o) (λ r w. said j r.0.map ≡ truth hi j) Always
  ranged-right lo hi logs o next order got right = record {
    post = λ w p.
        Post-map Always (apply_range node logs hi o w)
          (λ r w' exact. settle r.0.map (exact j holder) (told next))
          ((apply_range-exact node treasury honest.owners truth hi (honest.balances hi) logs o).post
            w tt);
  }
    where
      told : o.map.cursor + 1 ≡ lo → (truth hi j ≡ truth o.map.cursor j) ⊎ TellsOf treasury logs j
      told e =
          honest.tells o.map.cursor hi logs (omega arith)
            (subst (λ n. Got node n hi logs) (sym e) got)

      settle :
          (m : BalanceMap)
          → ((said j m ≡ truth hi j) ⊎ (said j m ≡ said j o.map))
            × (TellsOf treasury logs j → said j m ≡ truth hi j)
          → (truth hi j ≡ truth o.map.cursor j) ⊎ TellsOf treasury logs j
          → said j m ≡ truth hi j
      settle m (inl now, f) t = now
      settle m (inr before, f) (inl still) = before ∙ right ∙ sym still
      settle m (inr before, f) (inr t) = f t

  -- The map says of the address what it has at the cursor.
  abbrev pub staying_right : RangeKept node
  staying_right = record {
    Holds = λ m changed. said j m ≡ truth m.cursor j;
    Applied = λ hi m changed. said j m ≡ truth hi j;
    moved = λ m changed hi h. said-moved j m hi ∙ h;
    ranged = ranged-right;
  }

-- What ranges keep, and the pruning of records without a balance, a sync keeps.
module _ (node : Node) (cfg : FollowConfig) (from to : ℕ) (kept : RangeKept node)
    (pruned : (candidates : List Address) (m : BalanceMap) (changed : UpdateBatch)
      → kept.Holds m changed
      → kept.Holds (prune_each candidates m) changed) where
  open node use {World}

  prune_transient-Done :
      Keeps
        (Done node cfg from to kept)
        (prune_transient node)
        (λ t s. Done node cfg from to kept s)
        (Within node cfg from to kept)
  unfolding prune_transient prune_zero
  prune_transient-Done = record {
    post = λ s (at_end, holds).
        let candidates : List Address = Table.keys s.inserted in
        (cursor-prune_each candidates s.map ∙ at_end, pruned candidates s.map s.changed holds);
  }

  pub sync-Done :
      (s : Sync World)
      → s.map.cursor + 1 ≡ from
      → from ≤ to
      → 1 ≤ cfg.chunk
      → kept.Holds s.map []
      → Post
          (λ t s'. Done node cfg from to kept s')
          (Within node cfg from to kept)
          (sync node cfg from to s)
  unfolding sync sync_into
  sync-Done s a h c holds =
      let not_empty : ltb to from ≡ false = ground arith in
      rw not_empty (
        (bind-Keeps {P = λ t. (t.map.cursor + 1 ≡ from) × kept.Holds t.map t.changed} _ _
            (record { post = λ t (e, i). sync_chunks-Within node cfg from to kept t e h c i })
            (λ t. prune_transient-Done)).post
          _ (a, holds))

-- Pruning changes neither the cursor nor what is said.
pub pruned-said :
    (P : ℕ → Reading → Type 0) (j : Address) (candidates : List Address) (m : BalanceMap)
    → P m.cursor (said j m)
    → P (prune_each candidates m).cursor (said j (prune_each candidates m))
pruned-said P j candidates m h =
    subst (λ (p : ℕ × Reading). P p.0 p.1)
      (λ k. (sym (cursor-prune_each candidates m) k, sym (prune_each-said candidates j m) k)) h

module _ (node : Node) (cfg : FollowConfig) (from to : ℕ) (truth : ℕ → Address → Reading)
    (treasury : ℕ → Address) (j : Address) (holder : IsHolder j)
    (honest : IsHonest node truth treasury j) where
  open node use {World}

  abbrev kept : RangeKept node
  kept = staying_right node truth treasury j holder honest

  -- Let the node be honest about a 20-byte address that is not zero, the map say of it what it has at the cursor, and
  -- a range that is not empty begin right after the cursor, the chunk being positive. After a sync of
  -- the range that succeeds, the map says of the address what it has at the range's end, however the
  -- range was cut; after one that fails, the map still says what it has at the map's cursor.
  pub sync-right :
      (s : Sync World)
      → s.map.cursor + 1 ≡ from
      → from ≤ to
      → 1 ≤ cfg.chunk
      → said j s.map ≡ truth s.map.cursor j
      → Post
          (λ t s'. (s'.map.cursor ≡ to) × (said j s'.map ≡ truth to j))
          (λ s'. said j s'.map ≡ truth s'.map.cursor j)
          (sync node cfg from to s)
  sync-right s a h c right = settle (sync node cfg from to s) (
      sync-Done node cfg from to kept
        (λ candidates m changed. pruned-said (λ c r. r ≡ truth c j) j candidates m) s a h c right)
    where
      settle :
          (r : Result Fault (Unit {0}) × Sync World)
          → Post (λ t s'. Done node cfg from to kept s') (Within node cfg from to kept) r
          → Post
              (λ t s'. (s'.map.cursor ≡ to) × (said j s'.map ≡ truth to j))
              (λ s'. said j s'.map ≡ truth s'.map.cursor j)
              r
      settle (ok t, s') (at_end, now) = (at_end, now ∙ ap (λ n. truth n j) at_end)
      settle (err e, s') (ne, (low, high, now)) = (ne, now)
