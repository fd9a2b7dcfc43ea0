-- ===== src/Follow/Loop/Kept.antt =====
-- What passes and rounds keep of the map, if the tripwire and the syncing of a range keep it.
use poulpy_eth_pir_demo.Base.{
  ℕ, ◌+◌, ◌≤◌, ◌≡◌, refl, subst, Option, none, some, false, nat_eq, length, leb, arith, Bool-cases,
  Option-cases, inl, inr,
}
use poulpy_eth_pir_demo.Base.Run.{Result, ok, err, Run, ◌>>=◌, ◌>>◌}
use poulpy_eth_pir_demo.Tokens.{Hash}
use poulpy_eth_pir_demo.Balances.{BalanceMap}
use poulpy_eth_pir_demo.Publish.Current.{UpdateBatch}
use poulpy_eth_pir_demo.Chain.Node.{Node, Fault, is_panic}
use poulpy_eth_pir_demo.Chain.Tip.{is_reorgable, resolve}
use poulpy_eth_pir_demo.Follow.Watch.{ChainWatch}
use poulpy_eth_pir_demo.Follow.Syncer.{Sync, FollowConfig, sync, save, mark_snapshot}
use poulpy_eth_pir_demo.Follow.Syncer.Ends.{Post, Post-map, Keeps, bind-Keeps}
use poulpy_eth_pir_demo.Follow.Loop.Armed.{
  IsArmed, HasNoReorgs, repair_if_needed-Keeps, update_reorg_watch-Keeps,
}
use poulpy_eth_pir_demo.Follow.Loop.Stays.{
  Stays, save-Stays, mark_snapshot-Stays, record_progress-Stays, record_finished-Stays,
  on_world-Stays, resolve-NeverStuck,
}
use poulpy_eth_pir_demo.Follow.Loop.{
  Follower, Rounds, on_inner, repair_if_needed, record_progress, publish_changes, finish_pass,
  advance, pass, snapshot_failed_progress, settle_pass, on_success, on_failure,
}

either : {S A : Type 0} (P : S → Type 0) (r : Result Fault A × S) → Post (λ a. P) P r → P r.1
either P (ok a, s) h = h
either P (err e, s) h = h.1

module _ (node : Node) (cfg : FollowConfig) (I : BalanceMap → Type 0) where
  open node use {World}

  abbrev pub Inner : (Sync World → Type 0) → Follower World → Type 0
  Inner P s = P s.inner

  abbrev pub Held : Follower World → Type 0
  Held s = I s.inner.map

  pub on_inner-Keeps :
      {A : Type 0} (P : Sync World → Type 0) (Q : A → Sync World → Type 0) (R : Sync World → Type 0)
      (m : Run (Sync World) Fault A)
      → ((t : Sync World) → R t → I t.map)
      → Keeps P m Q R
      → Keeps (Inner P) (on_inner node m) (λ a. Inner (Q a)) Held
  on_inner-Keeps {A = A} P Q R m f h = record { post = λ s p. go s (m s.inner) (h.post s.inner p) }
    where
      go :
          (s : Follower World) (r : Result Fault A × Sync World)
          → Post Q R r
          → Post (λ a. Inner (Q a)) Held (r.0, record s { inner = r.1 })
      go s (ok a, t) q = q
      go s (err e, t) q = (q.0, f t q.1)

  -- A step that leaves the map leaves what is known of it.
  stays :
      {A : Type 0} (m : Run (Sync World) Fault A)
      → Stays node cfg (λ m changed watch. I m) m
      → Keeps Held (on_inner node m) (λ a. Held) Held
  stays m h = on_inner-Keeps _ _ _ m (λ t i. i) h

  abbrev HeldBy : Option (Rounds World) → Type 0
  HeldBy none = Unit
  HeldBy (some r) = Held r.follower

  publish_changes-Keeps : Keeps Held (publish_changes node) (λ t. Held) Held
  unfolding publish_changes
  publish_changes-Keeps = record {
    post = λ s i. elim (Option-cases s.updates) [
      | inl alone ↦ rw alone i
      | inr (tx, linked) ↦ elim (Bool-cases (nat_eq (length s.inner.changed) 0)) [
        | inl none_changed ↦ rw (linked, none_changed) i
        | inr some_changed ↦ elim (Bool-cases tx.is_open) [
          | inl open_end ↦ rw (linked, some_changed, open_end) i
          | inr gone ↦ rw (linked, some_changed, gone) (λ h. cc, i)
        ]
      ]
    ];
  }

  finish_pass-Keeps : Keeps Held (finish_pass node cfg) (λ t. Held) Held
  unfolding finish_pass
  finish_pass-Keeps =
      bind-Keeps _ _
        (on_inner-Keeps _ _ _ _ (λ t i. i) (update_reorg_watch-Keeps node cfg (λ m changed. I m)))
        (λ a. bind-Keeps _ _ (stays _ (save-Stays node cfg _)) (λ b.
          bind-Keeps _ _ (stays _ (record_finished-Stays node cfg _)) (λ c.
            bind-Keeps _ _ (stays _ (mark_snapshot-Stays node cfg _))
              (λ d. publish_changes-Keeps))))

  -- A tripwire that is not in use, or that is armed and does not go off.
  pub not_in_use :
      is_reorgable cfg.tip ≡ false
      → Keeps Held (on_inner node (repair_if_needed node cfg)) (λ a. Held) Held
  unfolding repair_if_needed
  not_in_use final = stays _ (record { post = λ s i. rw final i })

  pub not_set_off :
      (hash_of : ℕ → Option Hash)
      → HasNoReorgs node cfg hash_of
      → Keeps
          (Inner (λ t. I t.map × IsArmed cfg hash_of t.map t.watch))
          (on_inner node (repair_if_needed node cfg))
          (λ a. Held)
          Held
  not_set_off hash_of no_reorgs = record {
    post = λ s p.
        Post-map Held (on_inner node (repair_if_needed node cfg) s) (λ a u q. q.0)
          ((on_inner-Keeps _ _ _ _ (λ t i. i)
              (repair_if_needed-Keeps node cfg hash_of no_reorgs (λ m changed. I m))).post
            s p);
  }

  -- What a range that begins right after the cursor keeps, a pass keeps.
  pub pass-Keeps :
      (P : Follower World → Type 0)
      → Keeps P (on_inner node (repair_if_needed node cfg)) (λ a. Held) Held
      → ((target : ℕ) (t : Sync World)
          → t.map.cursor + 1 ≤ target
          → I t.map
          → Post (λ a u. I u.map) (λ u. I u.map) (sync node cfg (t.map.cursor + 1) target t))
      → Keeps P (pass node cfg) (λ t. Held) Held
  unfolding pass
  pass-Keeps P repaired synced = bind-Keeps _ _ repaired (λ a.
      bind-Keeps _ _
        (stays _
          (on_world-Stays node cfg _ (resolve node cfg.tip) (resolve-NeverStuck node cfg.tip)))
        (λ target. advance-Keeps target))
    where
      At : ℕ → BalanceMap → UpdateBatch → ChainWatch → Type 0
      At cursor m changed watch = (m.cursor ≡ cursor) × I m

      run :
          (cursor target : ℕ)
          → cursor + 1 ≤ target
          → Keeps
              (Inner (λ t. At cursor t.map t.changed t.watch))
              (do
                _ ← on_inner node (record_progress node cfg cursor target)
                _ ← on_inner node (sync node cfg (cursor + 1) target)
                finish_pass node cfg)
              (λ t. Held)
              Held
      run cursor target h =
          bind-Keeps _ _
            (on_inner-Keeps _ _ _ _ (λ t i. i.1)
              (record_progress-Stays node cfg (At cursor) cursor target))
            (λ a.
              bind-Keeps _ _
                (on_inner-Keeps _ _ _ _ (λ t i. i)
                  (record { post = λ t (e, i). rw (← e) (synced target t (omega arith) i) }))
                (λ b. finish_pass-Keeps))

      advance-Keeps : (target : ℕ) → Keeps Held (advance node cfg target) (λ t. Held) Held
      advance-Keeps target =
          unfold advance in
          record {
            post = λ s i. elim (Bool-cases (leb target s.inner.map.cursor)) [
              | inl current ↦ rw current i
              | inr behind ↦
                  rw behind ((run s.inner.map.cursor target (ground arith)).post s (refl, i))
            ];
          }

  -- After a failed pass the map is only saved.
  snapshot_failed-Held : (s : Follower World) → Held s → Held (snapshot_failed_progress node s)
  unfolding snapshot_failed_progress
  snapshot_failed-Held s i =
      either (λ t. I t.map) ((save node >> mark_snapshot node) s.inner)
        ((bind-Keeps _ _ (save-Stays node cfg (λ m changed watch. I m))
            (λ t. mark_snapshot-Stays node cfg (λ m changed watch. I m))).post
          s.inner i)

  pub settle_pass-Held :
      (failures : ℕ) (r : Result Fault (Unit {0}) × Follower World) (after : Rounds World)
      → Post (λ t. Held) Held r
      → settle_pass node failures r ≡ some after
      → Held after.follower
  unfolding settle_pass on_success on_failure
  settle_pass-Held failures (ok t, s) after h e =
      subst (λ (o : Option (Rounds World)). HeldBy o) e h
  settle_pass-Held failures (err f, s) after h e = elim (Bool-cases (is_panic f)) [
    | inl panics ↦ absurd (cc (e, panics))
    | inr handled ↦
        subst (λ (o : Option (Rounds World)). HeldBy o) (rw handled at e)
          (snapshot_failed-Held s h.1)
  ]
