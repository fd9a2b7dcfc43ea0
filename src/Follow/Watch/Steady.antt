-- ===== src/Follow/Watch/Steady.antt =====
-- The tripwire on a chain whose blocks keep their hashes: it stays where it is put, and does not go
-- off.
use poulpy_eth_pir_demo.Base.{
  ℕ, ◌≡◌, refl, sym, ◌∙◌, ◌⊎◌, inl, inr, Option, none, some, if◌then◌else◌,
}
use poulpy_eth_pir_demo.Base.Equality.{byte_list_eq, eq_self}
use poulpy_eth_pir_demo.Base.Run.{Result, ok, err, continue}
use poulpy_eth_pir_demo.Tokens.{Hash}
use poulpy_eth_pir_demo.Chain.Node.{Node, Message, of_rpc}
use poulpy_eth_pir_demo.Chain.Tip.{block_hash}
use poulpy_eth_pir_demo.Follow.Watch.{
  Watched, same_hash, check_hash, repair, repair_if_reorged, set_hash, store_cursor_hash,
}
use poulpy_eth_pir_demo.Follow.Syncer.Ends.{Post}

-- A node that gives a block one hash only, or none, whenever it answers.
pub record IsSteady (node : Node) (hash_of : ℕ → Option Hash) : Type 0 where
  pub steady :
      (block : ℕ) (w w' : node.World) (h : Option Hash)
      → node.hash_at block w ≡ (ok h, w')
      → h ≡ hash_of block

module _ (node : Node) (hash_of : ℕ → Option Hash) (hashes : IsSteady node hash_of) where
  open node use {World, hash_at}

  -- No hash is known, or that of the cursor's block.
  abbrev pub IsAtCursor : Watched World → Type 0
  IsAtCursor s = (s.watch.cursor_hash ≡ none) ⊎ (s.watch.cursor_hash ≡ hash_of s.map.cursor)

  abbrev pub Same : Watched World → Watched World → Type 0
  Same s s' = (s'.map ≡ s.map) × (s'.watch ≡ s.watch)

  check_hash-Same :
      (window : ℕ) (s : Watched World) (known : Option Hash)
      → (known ≡ none) ⊎ (known ≡ hash_of s.map.cursor)
      → Post (λ t s'. Same s s') (λ s'. Same s s') (check_hash node known window s)
  unfolding check_hash block_hash same_hash
  check_hash-Same window s none armed = (refl, refl)
  check_hash-Same window s (some known) (inl e) = absurd (cc e)
  check_hash-Same window s (some known) (inr e) = go (hash_at s.map.cursor s.world) refl
    where
      go :
          (r : Result Message (Option Hash) × World)
          → hash_at s.map.cursor s.world ≡ r
          → Post
              (λ t s'. Same s s')
              (λ s'. Same s s')
              (let (q, w) = of_rpc r in
                continue q
                  (λ now.
                    if same_hash node now known then (λ u. (ok tt, u)) else repair node window)
                  (record s { world = w }))
      go (ok h, w) asked =
          let found : h ≡ some known = hashes.steady s.map.cursor s.world w h asked ∙ sym e in
          rw (found, eq_self known) (refl, refl)
      go (err m, w) asked = (λ x. cc, (refl, refl))

  -- A tripwire that is armed at the cursor does nothing.
  pub repair_if_reorged-Same :
      (window : ℕ) (s : Watched World)
      → IsAtCursor s
      → Post (λ t s'. Same s s') (λ s'. Same s s') (repair_if_reorged node window s)
  unfolding repair_if_reorged
  repair_if_reorged-Same window s armed = check_hash-Same window s s.watch.cursor_hash armed

  -- It is armed at the cursor.
  pub store_cursor_hash_lem :
      (s : Watched World)
      → Post
          (λ t s'. (s'.map ≡ s.map) × (s'.watch.cursor_hash ≡ hash_of s.map.cursor))
          (λ s'. s'.map ≡ s.map)
          (store_cursor_hash node s.map.cursor s)
  unfolding store_cursor_hash set_hash block_hash
  store_cursor_hash_lem s = go (hash_at s.map.cursor s.world) refl
    where
      go :
          (r : Result Message (Option Hash) × World)
          → hash_at s.map.cursor s.world ≡ r
          → Post
              (λ t s'. (s'.map ≡ s.map) × (s'.watch.cursor_hash ≡ hash_of s.map.cursor))
              (λ s'. s'.map ≡ s.map)
              (let (q, w) = of_rpc r in continue q (set_hash node) (record s { world = w }))
      go (ok h, w) asked = (refl, hashes.steady s.map.cursor s.world w h asked)
      go (err m, w) asked = (λ x. cc, refl)

-- Whatever the node answers, the map is left alone.
pub map-store_cursor_hash :
    (node : Node) (cursor : ℕ) (s : Watched node.World)
    → Post (λ t s'. s'.map ≡ s.map) (λ s'. s'.map ≡ s.map) (store_cursor_hash node cursor s)
unfolding store_cursor_hash set_hash block_hash
map-store_cursor_hash node cursor s = go (node.hash_at cursor s.world)
  where
    go :
        (r : Result Message (Option Hash) × node.World)
        → Post
            (λ t s'. s'.map ≡ s.map)
            (λ s'. s'.map ≡ s.map)
            (let (q, w) = of_rpc r in continue q (set_hash node) (record s { world = w }))
    go (ok h, w) = refl
    go (err m, w) = (λ x. cc, refl)
