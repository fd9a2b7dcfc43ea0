-- ===== src/Serve/Caught.antt =====
-- What the loop that catches up leaves, after its failures too.
use poulpy_eth_pir_demo.Base.{
  ℕ, ◌+◌, ◌≤◌, ◌≡◌, refl, subst, ◌∙◌, ◌⊎◌, Option, none, some, true, false, Bool, [], ◌∷◌, leb,
  arith, Bool-cases, inl, inr, if◌then◌else◌,
}
use poulpy_eth_pir_demo.Base.Equality.{◌==◌, byte_list_eq}
use poulpy_eth_pir_demo.Base.Table
use poulpy_eth_pir_demo.Base.Table.{Table, Unique}
use poulpy_eth_pir_demo.Base.Run.{Result, ok, err, Run}
use poulpy_eth_pir_demo.Tokens.{Address}
use poulpy_eth_pir_demo.Record.{Entry}
use poulpy_eth_pir_demo.Balances.{BalanceMap, Reading}
use poulpy_eth_pir_demo.Balances
use poulpy_eth_pir_demo.Balances.Invariant.{HoldsBalances}
use poulpy_eth_pir_demo.Chain.Node.{Node, Fault, is_panic}
use poulpy_eth_pir_demo.Chain.Tip.{resolve}
use poulpy_eth_pir_demo.Follow.Apply.Covers.{Serves}
use poulpy_eth_pir_demo.Follow.Watch.{no_watch}
use poulpy_eth_pir_demo.Follow.Syncer.{Sync, FollowConfig, sync}
use poulpy_eth_pir_demo.Follow.Syncer.Covered.{covering, sync-Covers}
use poulpy_eth_pir_demo.Follow.Syncer.Chunks.{Within, Done}
use poulpy_eth_pir_demo.Follow.Syncer.Ends.{Post, Keeps, bind-Keeps}
use poulpy_eth_pir_demo.Follow.Loop.Stays.{
  save-Stays, mark_snapshot-Stays, record_progress-Stays, on_world-Stays, resolve-NeverStuck,
}
use poulpy_eth_pir_demo.Serve.{
  collect_rows, snapshot, save_then, sync_to_target, catch_up_to, catch_up_once, settle_catch_up,
  catch_up_round, CatchesUp, done, again,
}

-- The PIR side begins with the map's record of every holder.
get-collect_rows :
    (rows copy : Table Address Entry) (j : Address) (e : Entry)
    → Unique rows
    → (Table.get j rows ≡ some e) ⊎ ((Table.get j rows ≡ none) × (Table.get j copy ≡ some e))
    → Table.get j (collect_rows rows copy) ≡ some e
unfolding collect_rows Table.get
get-collect_rows [] copy j e u (inl h) = absurd (cc h)
get-collect_rows [] copy j e u (inr h) = h.1
get-collect_rows ((addr, f) ∷ rows) copy j e (fresh, u) h =
    get-collect_rows rows (Table.insert addr f copy) j e u (elim (Bool-cases (addr == j)) [
      | inl here ↦ inr (gone here, Table.get-insert addr j f copy ∙ rw here (first here h))
      | inr there ↦ later there h
    ])
  where
    gone : (addr == j) ≡ true → Table.get j rows ≡ none
    gone here =
        subst (λ (k : Address). Table.get k rows ≡ none) ((byte_list_eq.same_iff addr j).0 here)
          fresh

    first :
        (addr == j) ≡ true
        → ((if addr == j then some f else Table.get j rows) ≡ some e)
          ⊎ (((if addr == j then some f else Table.get j rows) ≡ none)
              × (Table.get j copy ≡ some e))
        → some f ≡ some e
    first here (inl h) = rw here at h
    first here (inr h) = absurd (cc (rw here at (h.0)))

    later :
        (addr == j) ≡ false
        → ((if addr == j then some f else Table.get j rows) ≡ some e)
          ⊎ (((if addr == j then some f else Table.get j rows) ≡ none)
              × (Table.get j copy ≡ some e))
        → (Table.get j rows ≡ some e)
          ⊎ ((Table.get j rows ≡ none) × (Table.get j (Table.insert addr f copy) ≡ some e))
    later there (inl h) = inl (rw there at h)
    later there (inr h) = inr (rw there at (h.0), Table.get-insert addr j f copy ∙ rw there (h.1))

pub snapshot-Serves : (m : BalanceMap) → HoldsBalances m → Serves (snapshot m) m
unfolding snapshot Balances.get
snapshot-Serves m h j e held = get-collect_rows m.inner [] j e h.once (inl held)

weaken :
    {S A : Type 0} {P : S → Type 0} {Q : A → S → Type 0} {R R' : S → Type 0} (m : Run S Fault A)
    → ((s : S) → R s → R' s)
    → Keeps P m Q R
    → Keeps P m Q R'
weaken {S} {A} {P} {Q} {R} {R'} m f h = record { post = λ s p. go (m s) (h.post s p) }
  where
    go : (r : Result Fault A × S) → Post Q R r → Post Q R' r
    go (ok a, s) q = q
    go (err e, s) q = (q.0, f s q.1)

module _ (node : Node) (cfg : FollowConfig) (I : BalanceMap → Type 0) where
  open node use {World}

  abbrev Held : Sync World → Type 0
  Held s = I s.map

  -- What a range that begins right after the cursor keeps, the loop keeps.
  abbrev pub Synced : Type 0
  Synced =
      (target : ℕ) (t : Sync World)
      → t.map.cursor + 1 ≤ target
      → I t.map
      → Post (λ a u. I u.map) (λ u. I u.map) (sync node cfg (t.map.cursor + 1) target t)

  save_then-Keeps :
      (r : Result Fault (Unit {0}) × Sync World)
      → Post (λ t. Held) Held r
      → Post (λ t. Held) Held (save_then node r.0 r.1)
  unfolding save_then
  save_then-Keeps (ok t, s) i =
      (bind-Keeps _ _ (save-Stays node cfg (λ m changed watch. I m))
          (λ a. record { post = λ u k. k })).post
        s i
  save_then-Keeps (err e, s) (real, i) =
      (bind-Keeps _ _ (save-Stays node cfg (λ m changed watch. I m))
          (λ a. record { post = λ u k. (real, k) })).post
        s i

  module _ (synced : Synced) where
    sync_to_target-Keeps :
        (cursor target : ℕ)
        → cursor + 1 ≤ target
        → Keeps
            (λ s. (s.map.cursor ≡ cursor) × I s.map)
            (sync_to_target node cfg target)
            (λ t. Held)
            Held
    unfolding sync_to_target
    sync_to_target-Keeps cursor target h =
        bind-Keeps _ _
          (weaken _ (λ s i. i.1)
            (mark_snapshot-Stays node cfg (λ m changed watch. (m.cursor ≡ cursor) × I m)))
          (λ a. record {
            post = λ s (e, i).
                let t = record s { watch = no_watch; changed = [] } in
                save_then-Keeps (sync node cfg (s.map.cursor + 1) target t)
                  (synced target t (rw e h) i);
          })

    catch_up_to-Keeps : (target : ℕ) → Keeps Held (catch_up_to node cfg target) (λ t. Held) Held
    unfolding catch_up_to
    catch_up_to-Keeps target = record {
      post = λ s i. elim (Bool-cases (leb target s.map.cursor)) [
        | inl current ↦ rw current i
        | inr behind ↦ rw behind (
            (bind-Keeps _ _
                (weaken _ (λ t k. k.1)
                  (record_progress-Stays node cfg
                    (λ m changed watch. (m.cursor ≡ s.map.cursor) × I m) s.map.cursor target))
                (λ a. sync_to_target-Keeps s.map.cursor target (ground arith))).post
              s (refl, i))
      ];
    }

    catch_up_once-Keeps : Keeps Held (catch_up_once node cfg) (λ t. Held) Held
    unfolding catch_up_once
    catch_up_once-Keeps =
        bind-Keeps _ _
          (on_world-Stays node cfg (λ m changed watch. I m) (resolve node cfg.tip)
            (resolve-NeverStuck node cfg.tip))
          catch_up_to-Keeps

    abbrev HeldBy : Option (Bool × Sync World) → Type 0
    HeldBy none = Unit
    HeldBy (some (ended, s)) = Held s

    settle_catch_up-Held :
        (r : Result Fault (Unit {0}) × Sync World)
        → Post (λ t. Held) Held r
        → HeldBy (settle_catch_up node r)
    unfolding settle_catch_up
    settle_catch_up-Held (ok t, s) i = i
    settle_catch_up-Held (err e, s) i = elim (Bool-cases (is_panic e)) [
      | inl panics ↦ rw panics tt
      | inr handled ↦ rw handled i.1
    ]

    round-Held :
        (s t : Sync World) (ended : Bool)
        → catch_up_round node cfg s ≡ some (ended, t)
        → I s.map
        → I t.map
    unfolding catch_up_round
    round-Held s t ended e i =
        subst HeldBy e
          (settle_catch_up-Held (catch_up_once node cfg s) (catch_up_once-Keeps.post s i))

    pub CatchesUp-Held : {s' s : Sync World} → CatchesUp node cfg s' s → I s.map → I s'.map
    CatchesUp-Held {s'} {s} (done last) i = round-Held s s' true last i
    CatchesUp-Held {s'} {s} (again {t = t} failed more) i =
        CatchesUp-Held more (round-Held s t false failed i)

-- A sync leaves no address twice and no record without a balance.
pub sync-balances :
    (node : Node) (cfg : FollowConfig) → 1 ≤ cfg.chunk → Synced node cfg HoldsBalances
sync-balances node cfg chunk target t h balances =
    drop (sync node cfg (t.map.cursor + 1) target t) (
      sync-Covers node cfg (t.map.cursor + 1) target (snapshot t.map) t refl h chunk balances
        (snapshot-Serves t.map balances))
  where
    drop :
        (r : Result Fault (Unit {0}) × Sync node.World)
        → Post
            (λ a u. Done node cfg (t.map.cursor + 1) target (covering node (snapshot t.map)) u)
            (Within node cfg (t.map.cursor + 1) target (covering node (snapshot t.map)))
            r
        → Post (λ a u. HoldsBalances u.map) (λ u. HoldsBalances u.map) r
    drop (ok a, u) q = q.1.balances
    drop (err e, u) (ne, (low, high, now)) = (ne, now.balances)
