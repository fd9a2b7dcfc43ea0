-- ===== src/Follow/Watch/Near.antt =====
-- A repair gives an address the balances of the block that it goes back to, or leaves what the map
-- says of it alone.
use poulpy_eth_pir_demo.Base.{
  ℕ, ◌-◌, ◌≡◌, refl, ap, subst, ◌∙◌, ◌⊎◌, inl, inr, Option, none, some, List, [], ◌∷◌,
  if◌then◌else◌, arith, Bool-cases,
}
use poulpy_eth_pir_demo.Base.Equality.{byte_list_eq}
use poulpy_eth_pir_demo.Base.Table
use poulpy_eth_pir_demo.Base.Table.{Table, Unique, is_some}
use poulpy_eth_pir_demo.Base.Run.{Result, ok, err, continue, ◌>>◌}
use poulpy_eth_pir_demo.Tokens.{Address, Hash}
use poulpy_eth_pir_demo.Balances.{Reading, BalanceMap}
use poulpy_eth_pir_demo.Balances
use poulpy_eth_pir_demo.Chain.Node.{Node, Fault, Message, of_rpc}
use poulpy_eth_pir_demo.Chain.Tip.{block_hash}
use poulpy_eth_pir_demo.Chain.Rpc.{read_balances}
use poulpy_eth_pir_demo.Chain.Rpc.Exact.{AnswersAt, is_among, read_balances-exact}
use poulpy_eth_pir_demo.Follow.Apply.Exact.{said, IsTrue}
use poulpy_eth_pir_demo.Follow.Watch.{
  Watched, addresses, apply_stale, on_watched_world, stale_into, correct_stale_addresses, rewind,
  repair, same_hash, check_hash, repair_if_reorged,
}
use poulpy_eth_pir_demo.Follow.Watch.Right.{apply_stale-said}
use poulpy_eth_pir_demo.Follow.Syncer.Ends.{Post, Keeps, Always, bind-Keeps}

module _ (node : Node) (truth : ℕ → Address → Reading)
    (honest : (block : ℕ) → AnswersAt node block (truth block)) (j : Address) (m : BalanceMap) where
  open node use {World}

  -- The map as it was.
  abbrev Left : Watched World → Type 0
  Left s = s.map ≡ m

  -- What the address has at a block, or what the map said before.
  abbrev Either : ℕ → BalanceMap → Type 0
  Either block n = (said j n ≡ truth block j) ⊎ (said j n ≡ said j m)

  abbrev Answers : ℕ → List Address → Table Address Reading → Type 0
  Answers block addrs readings =
      Unique readings
      × ((i : Address)
          → Table.get i readings ≡ (if is_among i addrs then some (truth block i) else none))

  reading-Left :
      (block : ℕ) (addrs : List Address)
      → Keeps Left
          (on_watched_world node (read_balances node addrs block))
          (λ readings s. Answers block addrs readings × Left s)
          Left
  reading-Left block addrs = record {
    post = λ s left.
        go s left (read_balances node addrs block s.world)
          ((read_balances-exact (truth block) node block addrs (honest block)).post s.world tt);
  }
    where
      go :
          (s : Watched World)
          → Left s
          → (r : Result Fault (Table Address Reading) × World)
          → Post (λ readings w. Answers block addrs readings) Always r
          → Post
              (λ readings s. Answers block addrs readings × Left s)
              Left
              (r.0, record s { world = r.1 })
      go s left (ok readings, w) h = (h, left)
      go s left (err e, w) h = (h.0, left)

  settle :
      (block : ℕ) (addrs : List Address) (readings : Table Address Reading) (n n' : BalanceMap)
      → Answers block addrs readings
      → n ≡ m
      → apply_stale readings n ≡ some n'
      → Either block n'
  settle block addrs readings n n' (once, has) left h =
      let now =
        apply_stale-said (truth block) readings n n'
          (Table.All-get (IsTrue (truth block)) readings once (λ i r p. ground (arith, p, has i))) h
          j in
      elim (Bool-cases (Table.contains_key j readings)) [
        | inl asked ↦ inl (rw asked at now)
        | inr other ↦ inr (rw other at now ∙ ap (said j) left)
      ]

  correct_stale_addresses-Either :
      (addrs : List Address) (block : ℕ)
      → Keeps Left (correct_stale_addresses node addrs block) (λ t s. Either block s.map) Left
  unfolding correct_stale_addresses stale_into
  correct_stale_addresses-Either [] block = record { post = λ s left. inr (ap (said j) left) }
  correct_stale_addresses-Either (a ∷ rest) block =
      bind-Keeps _ _ (reading-Left block (a ∷ rest)) (λ readings. record {
        post = λ s (answers, left). go readings s answers left (apply_stale readings s.map) refl;
      })
    where
      go :
          (readings : Table Address Reading) (s : Watched World)
          → Answers block (a ∷ rest) readings
          → Left s
          → (r : Option BalanceMap) → apply_stale readings s.map ≡ r
          → Post (λ t s'. Either block s'.map) Left (stale_into node r s)
      go readings s answers left none e = (λ h. cc, left)
      go readings s answers left (some n) e =
          settle block (a ∷ rest) readings s.map n answers left e

  -- Where a repair leaves the map, or one that was not needed.
  abbrev pub Rewound : ℕ → BalanceMap → Type 0
  Rewound window n = (n.cursor ≡ m.cursor - window) × Either (m.cursor - window) n

  abbrev pub Repaired : ℕ → Watched World → Type 0
  Repaired window s = Left s ⊎ Rewound window s.map

  repair-Repaired : (window : ℕ) → Keeps Left (repair node window) (λ t s. Repaired window s) Left
  unfolding repair rewind Balances.get
  repair-Repaired window = record {
    post = λ s left.
        go s left (s.map.cursor - window) (ap (λ (n : BalanceMap). n.cursor - window) left);
  }
    where
      go :
          (s : Watched World)
          → Left s
          → (block : ℕ) → block ≡ m.cursor - window
          → Post
              (λ t s'. Repaired window s')
              Left
              ((correct_stale_addresses node (addresses s.watch) block >> rewind node block) s)
      go s left block e =
          (bind-Keeps _ _ (correct_stale_addresses-Either (addresses s.watch) block) (λ t. record {
            post = λ u either. inr (e, subst (λ b. Either b u.map) e either);
          })).post
            s left

  check_hash-Repaired :
      (known : Option Hash) (window : ℕ)
      → Keeps Left (check_hash node known window) (λ t s. Repaired window s) Left
  unfolding check_hash block_hash
  check_hash-Repaired none window = record { post = λ s left. inl left }
  check_hash-Repaired (some known) window = record {
    post = λ s left. go s left (node.hash_at s.map.cursor s.world);
  }
    where
      go :
          (s : Watched World)
          → Left s
          → (r : Result Message (Option Hash) × World)
          → Post
              (λ t s. Repaired window s)
              Left
              (let (q, w) = of_rpc r in
                continue q
                  (λ now.
                    if same_hash node now known then (λ u. (ok tt, u)) else repair node window)
                  (record s { world = w }))
      go s left (err e, w) = (λ h. cc, left)
      go s left (ok h, w) = elim (Bool-cases (same_hash node h known)) [
        | inl same ↦ rw same (inl left)
        | inr other ↦ rw other ((repair-Repaired window).post (record s { world = w }) left)
      ]

  -- Whatever the node answers for hashes, the tripwire leaves the map alone, or takes it back by the
  -- window, where it says of the address what it has there or what the map said before. If it fails
  -- the map is left alone.
  pub repair_if_reorged-Repaired :
      (window : ℕ) → Keeps Left (repair_if_reorged node window) (λ t s. Repaired window s) Left
  unfolding repair_if_reorged
  repair_if_reorged-Repaired window = record {
    post = λ s left. (check_hash-Repaired s.watch.cursor_hash window).post s left;
  }
