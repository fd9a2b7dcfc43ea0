-- ===== src/Follow/Loop/Right.antt =====
-- The map through passes that succeed and passes that fail, over an honest node.
use poulpy_eth_pir_demo.Base.{ℕ, ◌+◌, ◌≤◌, ◌≡◌, refl, sym, ap, ◌∙◌, Option, some, false}
use poulpy_eth_pir_demo.Tokens.{Address, Hash}
use poulpy_eth_pir_demo.Balances.{BalanceMap, Reading}
use poulpy_eth_pir_demo.Chain.Events.Words.{IsHolder}
use poulpy_eth_pir_demo.Chain.Node.{Node}
use poulpy_eth_pir_demo.Chain.Tip.{is_reorgable}
use poulpy_eth_pir_demo.Follow.Apply.Exact.{said}
use poulpy_eth_pir_demo.Follow.Syncer.{Sync, FollowConfig, sync}
use poulpy_eth_pir_demo.Follow.Syncer.Ends.{Post, Post-map}
use poulpy_eth_pir_demo.Follow.Syncer.Exact.{IsHonest, sync-right}
use poulpy_eth_pir_demo.Follow.Loop.Armed.{IsArmed, HasNoReorgs}
use poulpy_eth_pir_demo.Follow.Loop.{Follower, Rounds, pass, round}
use poulpy_eth_pir_demo.Follow.Loop.Kept.{pass-Keeps, not_in_use, not_set_off, settle_pass-Held}

-- The map says of an address what it has at the map's cursor.
abbrev pub IsRight : (ℕ → Address → Reading) → Address → BalanceMap → Type 0
IsRight truth j m = said j m ≡ truth m.cursor j

-- Any number of rounds of the endless loop, each a pass that succeeds or one that fails.
pub data Runs (node : Node) (cfg : FollowConfig) (r : Rounds node.World)
    : Rounds node.World → Type 0 where
  here : Runs node cfg r r
  later :
      {s t : Rounds node.World} → Runs node cfg r s → round node cfg s ≡ some t → Runs node cfg r t

module _ (node : Node) (cfg : FollowConfig) (truth : ℕ → Address → Reading) (treasury : ℕ → Address)
    (j : Address) where
  pub sync-IsRight :
      1 ≤ cfg.chunk
      → IsHolder j
      → IsHonest node truth treasury j
      → (target : ℕ) (t : Sync node.World) → t.map.cursor + 1 ≤ target
      → IsRight truth j t.map
      → Post
          (λ a u. IsRight truth j u.map)
          (λ u. IsRight truth j u.map)
          (sync node cfg (t.map.cursor + 1) target t)
  sync-IsRight chunk holder honest target t h i =
      Post-map {Q = λ a u. (u.map.cursor ≡ target) × (said j u.map ≡ truth target j)}
        (λ u. IsRight truth j u.map) (sync node cfg (t.map.cursor + 1) target t)
        (λ a u (at_end, q). q ∙ ap (λ n. truth n j) (sym at_end))
        (sync-right node cfg (t.map.cursor + 1) target truth treasury j holder honest t refl h chunk
          i)

  -- A pass whose tripwire is not in use.
  pass-IsRight :
      is_reorgable cfg.tip ≡ false
      → 1 ≤ cfg.chunk
      → IsHolder j
      → IsHonest node truth treasury j
      → (s : Follower node.World) → IsRight truth j s.inner.map
      → Post
          (λ t s'. IsRight truth j s'.inner.map)
          (λ s'. IsRight truth j s'.inner.map)
          (pass node cfg s)
  pass-IsRight final chunk holder honest s right =
      (pass-Keeps node cfg (IsRight truth j) _ (not_in_use node cfg (IsRight truth j) final)
          (sync-IsRight chunk holder honest)).post
        s right

  -- A pass whose tripwire is armed.
  pub pass-IsRight_armed :
      (hash_of : ℕ → Option Hash)
      → HasNoReorgs node cfg hash_of
      → 1 ≤ cfg.chunk
      → IsHolder j
      → IsHonest node truth treasury j
      → (s : Follower node.World) → IsRight truth j s.inner.map
      → IsArmed cfg hash_of s.inner.map s.inner.watch
      → Post
          (λ t s'. IsRight truth j s'.inner.map)
          (λ s'. IsRight truth j s'.inner.map)
          (pass node cfg s)
  pass-IsRight_armed hash_of no_reorgs chunk holder honest s right armed =
      (pass-Keeps node cfg (IsRight truth j) _
          (not_set_off node cfg (IsRight truth j) hash_of no_reorgs)
          (sync-IsRight chunk holder honest)).post
        s (right, armed)

  -- Let the tip be finalized, the chunk positive, and the node honest about a 20-byte address that
  -- is not zero. If the map says of the address what it has at the map's cursor, it still does after
  -- any number of passes, whichever of them fail and wherever, as long as the program does not panic.
  pub Runs-IsRight :
      {r r' : Rounds node.World}
      → is_reorgable cfg.tip ≡ false
      → 1 ≤ cfg.chunk
      → IsHolder j
      → IsHonest node truth treasury j
      → Runs node cfg r r'
      → IsRight truth j r.follower.inner.map
      → IsRight truth j r'.follower.inner.map
  unfolding round
  Runs-IsRight final chunk holder honest here right = right
  Runs-IsRight {r = r} {r' = r'} final chunk holder honest (later {s = s} before done) right =
      settle_pass-Held node cfg (IsRight truth j) s.failures (pass node cfg s.follower) r'
        (pass-IsRight final chunk holder honest s.follower
          (Runs-IsRight final chunk holder honest before right))
        done
