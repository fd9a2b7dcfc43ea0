-- ===== src/Follow/Loop/Armed.antt =====
-- The tripwire through the steps of a pass, where no block changes its hash or none is asked for.
use poulpy_eth_pir_demo.Base.{
  ℕ, true, false, ◌≡◌, sym, ap, subst, ◌∙◌, ◌⊎◌, inl, inr, Option, none, Bool-cases,
}
use poulpy_eth_pir_demo.Base.Run.{Result, ok, err, continue}
use poulpy_eth_pir_demo.Tokens.{Hash}
use poulpy_eth_pir_demo.Balances.{BalanceMap}
use poulpy_eth_pir_demo.Publish.Current.{UpdateBatch}
use poulpy_eth_pir_demo.Chain.Node.{Node, Fault}
use poulpy_eth_pir_demo.Chain.Tip.{is_reorgable}
use poulpy_eth_pir_demo.Follow.Watch.{
  ChainWatch, Watched, trim, repair_if_reorged, store_cursor_hash,
}
use poulpy_eth_pir_demo.Follow.Watch.Steady.{
  IsSteady, repair_if_reorged-Same, store_cursor_hash_lem, map-store_cursor_hash,
}
use poulpy_eth_pir_demo.Follow.Syncer.{Sync, FollowConfig}
use poulpy_eth_pir_demo.Follow.Syncer.Ends.{Post, Keeps}
use poulpy_eth_pir_demo.Follow.Loop.{repair_if_needed, trim_watch, update_reorg_watch}

-- The tip is finalized, or the node gives each block one hash only.
abbrev pub HasNoReorgs : Node → FollowConfig → (ℕ → Option Hash) → Type 0
HasNoReorgs node cfg hash_of = (is_reorgable cfg.tip ≡ false) ⊎ IsSteady node hash_of

-- The tripwire has no hash, or the cursor block's.
abbrev pub IsPut : (ℕ → Option Hash) → BalanceMap → ChainWatch → Type 0
IsPut hash_of m watch = (watch.cursor_hash ≡ none) ⊎ (watch.cursor_hash ≡ hash_of m.cursor)

-- Or it is not in use.
abbrev pub IsArmed : FollowConfig → (ℕ → Option Hash) → BalanceMap → ChainWatch → Type 0
IsArmed cfg hash_of m watch = (is_reorgable cfg.tip ≡ false) ⊎ IsPut hash_of m watch

module _ (node : Node) (cfg : FollowConfig) where
  open node use {World}

  abbrev pub watched : Sync World → Watched World
  watched s = record { world = s.world; watch = s.watch; map = s.map }

  abbrev pub rewatched : Sync World → Watched World → Sync World
  rewatched s u = record s { world = u.world; watch = u.watch; map = u.map }

  -- The map and the changes are left alone, whatever the node answers.
  pub update_reorg_watch-Keeps :
      (I : BalanceMap → UpdateBatch → Type 0)
      → Keeps
          (λ s. I s.map s.changed)
          (update_reorg_watch node cfg)
          (λ a s. I s.map s.changed)
          (λ s. I s.map s.changed)
  unfolding update_reorg_watch trim_watch
  update_reorg_watch-Keeps I = record {
    post = λ s i. elim (Bool-cases (is_reorgable cfg.tip)) [
      | inr final ↦ rw final i
      | inl live ↦ rw live (
          go s i (store_cursor_hash node s.map.cursor (watched s))
            (map-store_cursor_hash node s.map.cursor (watched s)))
    ];
  }
    where
      go :
          (s : Sync World)
          → I s.map s.changed
          → (r : Result Fault (Unit {0}) × Watched World)
          → Post (λ t u. u.map ≡ s.map) (λ u. u.map ≡ s.map) r
          → Post
              (λ a u. I u.map u.changed)
              (λ u. I u.map u.changed)
              (continue r.0 (λ x. trim_watch node cfg) (rewatched s r.1))
      go s i (ok t, u) e = subst (λ (m : BalanceMap). I m s.changed) (sym e) i
      go s i (err x, u) (real, e) = (real, subst (λ (m : BalanceMap). I m s.changed) (sym e) i)

  module _ (hash_of : ℕ → Option Hash) (no_reorgs : HasNoReorgs node cfg hash_of)
      (I : BalanceMap → UpdateBatch → Type 0) where
    abbrev Held : Sync World → Type 0
    Held s = I s.map s.changed

    abbrev Armed : Sync World → Type 0
    Armed s = I s.map s.changed × IsArmed cfg hash_of s.map s.watch

    -- A tripwire that is armed stays so, and does nothing.
    pub repair_if_needed-Keeps : Keeps Armed (repair_if_needed node cfg) (λ a. Armed) Held
    unfolding repair_if_needed
    repair_if_needed-Keeps = record {
      post = λ s (i, armed). elim (Bool-cases (is_reorgable cfg.tip)) [
        | inr final ↦ rw final (i, inl final)
        | inl live ↦ rw live (go s i live no_reorgs armed)
      ];
    }
      where
        same :
            (s : Sync World)
            → I s.map s.changed
            → IsPut hash_of s.map s.watch
            → (r : Result Fault (Unit {0}) × Watched World)
            → Post
                (λ t u. (u.map ≡ s.map) × (u.watch ≡ s.watch))
                (λ u. (u.map ≡ s.map) × (u.watch ≡ s.watch))
                r
            → Post (λ a. Armed) Held (r.0, rewatched s r.1)
        same s i armed (ok t, u) (m, w) =
            subst (λ (p : BalanceMap × ChainWatch). I p.0 s.changed × IsArmed cfg hash_of p.0 p.1)
              (λ k. (sym m k, sym w k)) (i, inr armed)
        same s i armed (err x, u) (real, q) =
            (real, subst (λ (n : BalanceMap). I n s.changed) (sym (q.0)) i)

        go :
            (s : Sync World)
            → I s.map s.changed
            → is_reorgable cfg.tip ≡ true
            → HasNoReorgs node cfg hash_of
            → IsArmed cfg hash_of s.map s.watch
            → Post
                (λ a. Armed)
                Held
                (
                  (repair_if_reorged node cfg.reorg_window (watched s)).0,
                  rewatched s (repair_if_reorged node cfg.reorg_window (watched s)).1,
                )
        go s i live (inl final) armed = absurd (cc (live, final))
        go s i live (inr steady) (inl final) = absurd (cc (live, final))
        go s i live (inr steady) (inr armed) =
            same s i armed (repair_if_reorged node cfg.reorg_window (watched s))
              (repair_if_reorged-Same node hash_of steady cfg.reorg_window (watched s) armed)

    pub update_reorg_watch-IsArmed : Keeps Held (update_reorg_watch node cfg) (λ a. Armed) Held
    unfolding update_reorg_watch trim_watch trim
    update_reorg_watch-IsArmed = record {
      post = λ s i. elim (Bool-cases (is_reorgable cfg.tip)) [
        | inr final ↦ rw final (i, inl final)
        | inl live ↦ rw live (go s i live no_reorgs)
      ];
    }
      where
        stored :
            (s : Sync World)
            → I s.map s.changed
            → (r : Result Fault (Unit {0}) × Watched World)
            → Post
                (λ t u. (u.map ≡ s.map) × (u.watch.cursor_hash ≡ hash_of s.map.cursor))
                (λ u. u.map ≡ s.map)
                r
            → Post (λ a. Armed) Held (continue r.0 (λ x. trim_watch node cfg) (rewatched s r.1))
        stored s i (ok t, u) (m, h) = (
          subst (λ (n : BalanceMap). I n s.changed) (sym m) i,
          inr (inr (h ∙ ap (λ (n : BalanceMap). hash_of n.cursor) (sym m))),
        )
        stored s i (err x, u) (real, m) =
            (real, subst (λ (n : BalanceMap). I n s.changed) (sym m) i)

        go :
            (s : Sync World)
            → I s.map s.changed
            → is_reorgable cfg.tip ≡ true
            → HasNoReorgs node cfg hash_of
            → Post
                (λ a. Armed)
                Held
                (continue
                  (store_cursor_hash node s.map.cursor (watched s)).0
                  (λ x. trim_watch node cfg)
                  (rewatched s (store_cursor_hash node s.map.cursor (watched s)).1))
        go s i live (inl final) = absurd (cc (live, final))
        go s i live (inr steady) =
            stored s i (store_cursor_hash node s.map.cursor (watched s))
              (store_cursor_hash_lem node hash_of steady (watched s))
