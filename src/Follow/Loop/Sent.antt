-- ===== src/Follow/Loop/Sent.antt =====
-- What a pass hands to the PIR thread.
use poulpy_eth_pir_demo.Base.{
  ℕ, ◌+◌, ◌≢◌, ◌≡◌, refl, ap, sym, ◌⊎◌, inl, inr, Bool, true, Option, none, some, [], ◌∷◌, ◌++◌,
  length, nat_eq, leb, arith, if◌then◌else◌, Bool-cases,
}
use poulpy_eth_pir_demo.Base.Run.{Result, ok, err, Run, continue, ◌>>=◌}
use poulpy_eth_pir_demo.Chain.Node.{Node, Fault, pir_thread_gone}
use poulpy_eth_pir_demo.Chain.Tip.{resolve}
use poulpy_eth_pir_demo.Follow.Syncer.{Sync, FollowConfig, save, mark_snapshot, sync}
use poulpy_eth_pir_demo.Follow.Loop.{
  Channel, Follower, on_inner, on_world, repair_if_needed, record_progress, record_finished,
  update_reorg_watch, publish_changes, finish_pass, advance, pass,
}

module _ (node : Node) where
  open node use {World}

  -- From the channel before a run to its outcome: nothing is sent, or, if the run succeeds, one
  -- batch may be, which is what was recorded as changed, and is not empty.
  abbrev pub IsSent : Option Channel → Result Fault (Unit {0}) × Follower World → Type 0
  IsSent before (ok t, s) =
      (s.updates ≡ before)
      ⊎ ((tx : Channel) × (before ≡ some tx)
          × (tx.is_open ≡ true)
          × (length s.inner.changed ≢ 0)
          × (s.updates ≡ some (record tx { sent = tx.sent ++ (s.inner.changed ∷ []) })))
  IsSent before (err e, s) = s.updates ≡ before

  pub record Sends (m : Run (Follower World) Fault (Unit {0})) : Type 0 where
    pub sent : (s : Follower World) → IsSent s.updates (m s)

  -- What only changes the syncer's own state sends nothing.
  inner-Sends :
      {A : Type 0} (m : Run (Sync World) Fault A) (k : A → Run (Follower World) Fault (Unit {0}))
      → ((a : A) → Sends (k a))
      → Sends (on_inner node m >>= k)
  inner-Sends {A = A} m k h = record { sent = λ s. go s (m s.inner) }
    where
      go :
          (s : Follower World) (r : Result Fault A × Sync World)
          → IsSent s.updates (continue r.0 k (record s { inner = r.1 }))
      go s (ok a, t) = (h a).sent (record s { inner = t })
      go s (err e, t) = refl

  publish_changes-Sends : Sends (publish_changes node)
  unfolding publish_changes
  publish_changes-Sends = record { sent = λ s. go s.updates s refl }
    where
      send : Channel → Follower World → Result Fault (Unit {0}) × Follower World
      send tx s =
          if nat_eq (length s.inner.changed) 0
          then (ok tt, s)
          else if tx.is_open
          then (
            ok tt,
            record s { updates = some (record tx { sent = tx.sent ++ (s.inner.changed ∷ []) }) },
          )
          else (err pir_thread_gone, s)

      sent_to :
          (tx : Channel) (s : Follower World) → s.updates ≡ some tx → IsSent s.updates (send tx s)
      sent_to tx s e = elim (Bool-cases (nat_eq (length s.inner.changed) 0)) [
        | inl none_changed ↦ rw none_changed (inl refl)
        | inr some_changed ↦ elim (Bool-cases (tx.is_open)) [
          | inl open_end ↦
              rw (some_changed, open_end)
                (inr (
                  tx,
                  e,
                  open_end,
                  ground arith,
                  ap
                      (λ (b : Bool).
                        some (record { is_open = b; sent = tx.sent ++ (s.inner.changed ∷ []) }))
                      (sym open_end),
                ))
          | inr gone ↦ rw (some_changed, gone) refl
        ]
      ]

      go :
          (u : Option Channel) (s : Follower World)
          → s.updates ≡ u
          → IsSent s.updates (elim u [ none ↦ (ok tt, s) | some tx ↦ send tx s ])
      go none s e = inl refl
      go (some tx) s e = sent_to tx s e

  finish_pass-Sends : (cfg : FollowConfig) → Sends (finish_pass node cfg)
  unfolding finish_pass
  finish_pass-Sends cfg = inner-Sends (update_reorg_watch node cfg) _ (λ a.
      inner-Sends (save node) _ (λ b.
        inner-Sends (record_finished node cfg) _
          (λ c. inner-Sends (mark_snapshot node) _ (λ d. publish_changes-Sends))))

  advance-Sends : (cfg : FollowConfig) (target : ℕ) → Sends (advance node cfg target)
  unfolding advance
  advance-Sends cfg target = record {
    sent = λ s. elim (Bool-cases (leb target s.inner.map.cursor)) [
      | inl current ↦ rw current (inl refl)
      | inr behind ↦ rw behind ((run s.inner.map.cursor).sent s)
    ];
  }
    where
      run :
          (cursor : ℕ)
          → Sends (do
            _ ← on_inner node (record_progress node cfg cursor target)
            _ ← on_inner node (sync node cfg (cursor + 1) target)
            finish_pass node cfg)
      run cursor =
          inner-Sends (record_progress node cfg cursor target) _
            (λ a. inner-Sends (sync node cfg (cursor + 1) target) _ (λ b. finish_pass-Sends cfg))

  pass-Sends : (cfg : FollowConfig) → Sends (pass node cfg)
  unfolding pass
  pass-Sends cfg = inner-Sends (repair_if_needed node cfg) _ (λ a.
      inner-Sends (λ s. on_world node (resolve node cfg.tip) s) _
        (λ target. advance-Sends cfg target))

  -- A pass hands the PIR thread one batch at most, and none if it fails at any point; the batch is
  -- what was recorded as changed when the pass ended, and is not empty.
  pub pass-IsSent : (cfg : FollowConfig) (s : Follower World) → IsSent s.updates (pass node cfg s)
  pass-IsSent cfg s = (pass-Sends cfg).sent s
