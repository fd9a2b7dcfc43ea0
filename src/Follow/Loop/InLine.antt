-- ===== src/Follow/Loop/InLine.antt =====
-- The PIR side through a pass that succeeds, and through any number of them.
use poulpy_eth_pir_demo.Base.{
  ℕ, ◌+◌, ◌≤◌, List, [], ◌∷◌, ◌++◌, Option, some, ◌≡◌, refl, sym, subst, true, leb, nat_eq, length,
  arith, Bool-cases, inl, inr,
}
use poulpy_eth_pir_demo.Base.Run.{Result, ok, err, Run, ◌>>=◌}
use poulpy_eth_pir_demo.Balances.{BalanceMap}
use poulpy_eth_pir_demo.Balances.Invariant.{HoldsBalances}
use poulpy_eth_pir_demo.Publish.Current.{PirSnapshot, UpdateBatch, record_batch}
use poulpy_eth_pir_demo.Chain.Node.{Node, Fault}
use poulpy_eth_pir_demo.Chain.Tip.{resolve}
use poulpy_eth_pir_demo.Follow.Apply.Covers.{Covers, Serves, Covers-Serves}
use poulpy_eth_pir_demo.Follow.Syncer.{Sync, FollowConfig, sync}
use poulpy_eth_pir_demo.Follow.Syncer.Ends.{Post, Keeps, Always, bind-Keeps}
use poulpy_eth_pir_demo.Follow.Syncer.Covered.{covering, sync-Covers}
use poulpy_eth_pir_demo.Follow.Syncer.Chunks.{Within, Done}
use poulpy_eth_pir_demo.Follow.Loop.Armed.{
  IsArmed, HasNoReorgs, repair_if_needed-Keeps, update_reorg_watch-IsArmed,
}
use poulpy_eth_pir_demo.Follow.Watch.{ChainWatch}
use poulpy_eth_pir_demo.Tokens.{Hash}
use poulpy_eth_pir_demo.Follow.Loop.Stays.{
  save-Stays, mark_snapshot-Stays, record_progress-Stays, record_finished-Stays, on_world-Stays,
  resolve-NeverStuck,
}
use poulpy_eth_pir_demo.Follow.Loop.{
  Channel, Follower, on_inner, record_progress, publish_changes, finish_pass, advance, pass,
}

-- The copy once it has absorbed what was sent, batch by batch.
abbrev pub absorbed : List UpdateBatch → PirSnapshot → PirSnapshot
absorbed [] copy = copy
absorbed (batch ∷ rest) copy = absorbed rest (record_batch batch copy)

absorbed-append :
    (sent : List UpdateBatch) (batch : UpdateBatch) (copy : PirSnapshot)
    → absorbed (sent ++ (batch ∷ [])) copy ≡ record_batch batch (absorbed sent copy)
absorbed-append [] batch copy = refl
absorbed-append (b ∷ rest) batch copy = absorbed-append rest batch (record_batch b copy)

no_changes : (b : UpdateBatch) → nat_eq (length b) 0 ≡ true → b ≡ []
no_changes [] h = refl
no_changes (x ∷ b) h = ground arith

-- A PIR side that began with a copy and has absorbed all that was sent has the map's record of every
-- holder, and its tripwire is not in use, or not set, or set at the cursor.
pub record Follows {World : Type 0} (cfg : FollowConfig) (hash_of : ℕ → Option Hash)
    (copy : PirSnapshot) (s : Follower World) : Type 0 where
  pub channel : Channel
  pub connected : s.updates ≡ some channel
  pub serves : Serves (absorbed channel.sent copy) s.inner.map
  pub balances : HoldsBalances s.inner.map
  pub armed : IsArmed cfg hash_of s.inner.map s.inner.watch

module _ (node : Node) (cfg : FollowConfig) (hash_of : ℕ → Option Hash) (copy : PirSnapshot)
    (tx : Channel) where
  open node use {World}

  abbrev held : PirSnapshot
  held = absorbed tx.sent copy

  -- The channel as it was, and the map before or after the range was synced.
  abbrev In : BalanceMap → UpdateBatch → Type 0
  In m changed = Serves held m × HoldsBalances m

  abbrev Ready : Sync World → Type 0
  Ready t = In t.map t.changed × IsArmed cfg hash_of t.map t.watch

  abbrev Synced : Sync World → Type 0
  Synced t = Covers held t.map t.changed

  abbrev Finished : BalanceMap → UpdateBatch → ChainWatch → Type 0
  Finished m changed watch = Covers held m changed × IsArmed cfg hash_of m watch

  abbrev From : ℕ → BalanceMap → UpdateBatch → ChainWatch → Type 0
  From cursor m changed watch = (m.cursor ≡ cursor) × Serves held m × HoldsBalances m

  abbrev On : (Sync World → Type 0) → Follower World → Type 0
  On P s = (s.updates ≡ some tx) × P s.inner

  inner-Keeps :
      {A : Type 0} (P : Sync World → Type 0) (Q : A → Sync World → Type 0) (R : Sync World → Type 0)
      (m : Run (Sync World) Fault A)
      → Keeps P m Q R
      → Keeps (On P) (on_inner node m) (λ a. On (Q a)) Always
  inner-Keeps {A = A} P Q R m h = record {
    post = λ s (u, p). go s u (m s.inner) (h.post s.inner p);
  }
    where
      go :
          (s : Follower World)
          → s.updates ≡ some tx
          → (r : Result Fault A × Sync World) → Post Q R r
          → Post (λ a. On (Q a)) Always (r.0, record s { inner = r.1 })
      go s u (ok a, t) q = (u, q)
      go s u (err e, t) q = (q.0, tt)

  publish_changes-Keeps :
      Keeps
        (On (λ t. Finished t.map t.changed t.watch))
        (publish_changes node)
        (λ t s. Follows cfg hash_of copy s)
        Always
  unfolding publish_changes record_batch
  publish_changes-Keeps = record { post = λ s (u, (c, armed)). go s u c armed }
    where
      nothing_told :
          (s : Follower World) → Synced s.inner → s.inner.changed ≡ [] → Serves held s.inner.map
      nothing_told s c e =
          subst (λ (b : UpdateBatch). Serves (record_batch b held) s.inner.map) e
            (Covers-Serves held s.inner.map s.inner.changed c)

      go :
          (s : Follower World)
          → s.updates ≡ some tx
          → Synced s.inner
          → IsArmed cfg hash_of s.inner.map s.inner.watch
          → Post (λ t s. Follows cfg hash_of copy s) Always (publish_changes node s)
      go s u c armed = elim (Bool-cases (nat_eq (length s.inner.changed) 0)) [
        | inl none_changed ↦
            rw (u, none_changed)
              (record {
                channel = tx;
                connected = refl;
                serves = nothing_told s c (no_changes s.inner.changed none_changed);
                balances = c.balances;
                armed = armed;
              })
        | inr some_changed ↦ elim (Bool-cases (tx.is_open)) [
          | inl open_end ↦
              rw (u, some_changed, open_end)
                (record {
                  channel = _;
                  connected = refl;
                  serves =
                      subst (λ (p : PirSnapshot). Serves p s.inner.map)
                        (sym (absorbed-append tx.sent s.inner.changed copy))
                        (Covers-Serves held s.inner.map s.inner.changed c);
                  balances = c.balances;
                  armed = armed;
                })
          | inr gone ↦ rw (u, some_changed, gone) (λ h. cc, tt)
        ]
      ]

  module _ (no_reorgs : HasNoReorgs node cfg hash_of) where
    finish_pass-Keeps :
        Keeps (On Synced) (finish_pass node cfg) (λ t s. Follows cfg hash_of copy s) Always
    unfolding finish_pass
    finish_pass-Keeps =
        bind-Keeps _ _
          (inner-Keeps _ _ _ _
            (update_reorg_watch-IsArmed node cfg hash_of no_reorgs (Covers held)))
          (λ a. bind-Keeps _ _ (inner-Keeps _ _ _ _ (save-Stays node cfg Finished)) (λ b.
            bind-Keeps _ _ (inner-Keeps _ _ _ _ (record_finished-Stays node cfg Finished)) (λ c.
              bind-Keeps _ _ (inner-Keeps _ _ _ _ (mark_snapshot-Stays node cfg Finished))
                (λ d. publish_changes-Keeps))))

    advance-Keeps :
        (target : ℕ)
        → 1 ≤ cfg.chunk
        → Keeps (On Ready) (advance node cfg target) (λ t s. Follows cfg hash_of copy s) Always
    unfolding advance
    advance-Keeps target chunk = record {
      post = λ s (u, ((serves, balances), armed)).
          elim (Bool-cases (leb target s.inner.map.cursor)) [
            | inl current ↦ rw current (record {
              channel = tx;
              connected = u;
              serves = serves;
              balances = balances;
              armed = armed;
            })
            | inr behind ↦
                rw behind
                  ((run s.inner.map.cursor (ground arith)).post s (u, (refl, serves, balances)))
          ];
    }
      where
        synced :
            (cursor : ℕ)
            → cursor + 1 ≤ target
            → Keeps
                (λ t. From cursor t.map t.changed t.watch)
                (sync node cfg (cursor + 1) target)
                (λ a t. Synced t)
                Always
        synced cursor h = record {
          post = λ t (e, serves, balances). outcome (sync node cfg (cursor + 1) target t) (
              sync-Covers node cfg (cursor + 1) target held t (omega arith) h chunk balances
                serves);
        }
          where
            outcome :
                (r : Result Fault (Unit {0}) × Sync World)
                → Post
                    (λ a t. Done node cfg (cursor + 1) target (covering node held) t)
                    (Within node cfg (cursor + 1) target (covering node held))
                    r
                → Post (λ (a : Unit {0}) t. Synced t) Always r
            outcome (ok a, t) q = q.1
            outcome (err e, t) q = (q.0, tt)

        run :
            (cursor : ℕ)
            → cursor + 1 ≤ target
            → Keeps
                (On (λ t. From cursor t.map t.changed t.watch))
                (do
                  _ ← on_inner node (record_progress node cfg cursor target)
                  _ ← on_inner node (sync node cfg (cursor + 1) target)
                  finish_pass node cfg)
                (λ t s. Follows cfg hash_of copy s)
                Always
        run cursor h =
            bind-Keeps _ _
              (inner-Keeps _ _ _ _ (record_progress-Stays node cfg (From cursor) cursor target))
              (λ a. bind-Keeps _ _ (inner-Keeps _ _ _ _ (synced cursor h)) (λ b. finish_pass-Keeps))

    pass-Keeps :
        1 ≤ cfg.chunk → Keeps (On Ready) (pass node cfg) (λ t s. Follows cfg hash_of copy s) Always
    unfolding pass
    pass-Keeps chunk =
        bind-Keeps _ _ (inner-Keeps _ _ _ _ (repair_if_needed-Keeps node cfg hash_of no_reorgs In))
          (λ a.
            bind-Keeps _ _
              (inner-Keeps _ _ _ _ (
                on_world-Stays node cfg
                  (λ m changed watch. In m changed × IsArmed cfg hash_of m watch)
                  (resolve node cfg.tip) (resolve-NeverStuck node cfg.tip)))
              (λ target. advance-Keeps target chunk))

-- Let the tip be finalized, or the node give each block one hash only, and the chunk be positive. Let
-- the PIR side hold what it began with and has been sent, with the map's record of every holder, the
-- map no address twice and no record without a balance, and the tripwire be not in use, or not set,
-- or set at the cursor. Whatever the node answers, a pass that succeeds leaves all this so: once the
-- PIR side has absorbed what it was sent, it has the new map's record of every holder. A pass that
-- fails does not fail for lack of rounds.
pub pass-Follows :
    (node : Node) (cfg : FollowConfig) (hash_of : ℕ → Option Hash) (copy : PirSnapshot)
    (s : Follower node.World)
    → HasNoReorgs node cfg hash_of
    → 1 ≤ cfg.chunk
    → Follows cfg hash_of copy s
    → Post (λ t s'. Follows cfg hash_of copy s') Always (pass node cfg s)
pass-Follows node cfg hash_of copy s no_reorgs chunk follows =
    (pass-Keeps node cfg hash_of copy follows.channel no_reorgs chunk).post s
      (follows.connected, ((follows.serves, follows.balances), follows.armed))

-- Any number of passes that succeed, one after the other.
pub data Passes (node : Node) (cfg : FollowConfig) (s : Follower node.World)
    : Follower node.World → Type 0 where
  here : Passes node cfg s s
  later :
      {t u : Follower node.World}
      → Passes node cfg s t
      → pass node cfg t ≡ (ok tt, u)
      → Passes node cfg s u

-- As long as passes succeed, and the tip is finalized or each block has one hash only, a PIR side that
-- starts with the map's record of every holder and absorbs what it is sent has it after each of them.
pub Passes-Follows :
    {node : Node} {cfg : FollowConfig} {hash_of : ℕ → Option Hash} {s t : Follower node.World}
    (copy : PirSnapshot)
    → HasNoReorgs node cfg hash_of
    → 1 ≤ cfg.chunk
    → Passes node cfg s t
    → Follows cfg hash_of copy s
    → Follows cfg hash_of copy t
Passes-Follows copy no_reorgs chunk here follows = follows
Passes-Follows {node} {cfg} {hash_of} copy no_reorgs chunk (later {t = t} before done) follows =
    rw done at (
      pass-Follows node cfg hash_of copy t no_reorgs chunk
        (Passes-Follows copy no_reorgs chunk before follows))
