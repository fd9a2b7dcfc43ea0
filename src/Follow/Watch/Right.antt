-- ===== src/Follow/Watch/Right.antt =====
-- A repair after a reorg leaves a map that is right at the block it goes back to.
use poulpy_eth_pir_demo.Base.{
  ℕ, ◌-◌, true, ◌≡◌, refl, sym, ap, ◌∙◌, ◌⊎◌, inl, inr, Option, none, some, List, [], ◌∷◌, All,
  if◌then◌else◌, arith, Bool-cases, Option-cases,
}
use poulpy_eth_pir_demo.Base.Equality.{◌==◌, byte_list_eq, bytes_eq_iff}
use poulpy_eth_pir_demo.Base.Table
use poulpy_eth_pir_demo.Base.Table.{Table, Unique, is_some}
use poulpy_eth_pir_demo.Base.Run.{Result, ok, err, Run}
use poulpy_eth_pir_demo.Tokens.{Address}
use poulpy_eth_pir_demo.Balances.{Reading, BalanceMap}
use poulpy_eth_pir_demo.Balances
use poulpy_eth_pir_demo.Balances.Inversion.{apply-inversion}
use poulpy_eth_pir_demo.Chain.Touch.{no_touch}
use poulpy_eth_pir_demo.Chain.Node.{Node, Fault}
use poulpy_eth_pir_demo.Chain.Rpc.{read_balances}
use poulpy_eth_pir_demo.Chain.Rpc.Exact.{AnswersAt, is_among, read_balances-exact}
use poulpy_eth_pir_demo.Follow.Apply.Exact.{said, after-said, IsTrue}
use poulpy_eth_pir_demo.Follow.Watch.{
  Watched, addresses, apply_stale, on_watched_world, stale_into, correct_stale_addresses, rewind,
  repair,
}
use poulpy_eth_pir_demo.Follow.Syncer.Ends.{Post, Keeps, Always, bind-Keeps}
use poulpy_eth_pir_demo.Follow.Syncer.Exact.{said-moved}

module _ (truth : Address → Reading) where
  pub apply_stale-said :
      (readings : Table Address Reading) (m m' : BalanceMap)
      → All (IsTrue truth) readings
      → apply_stale readings m ≡ some m'
      → (j : Address) → said j m' ≡ (if Table.contains_key j readings then truth j else said j m)
  unfolding apply_stale Table.contains_key Table.get
  apply_stale-said [] m m' right h j = ap (said j) (sym same_map)
    where
      same_map : m ≡ m'
      same_map = ground (arith, h)
  apply_stale-said ((addr, r) ∷ rest) m m' (here, right) h j =
      elim (Option-cases (Balances.apply addr r no_touch m)) [
        | inl panicked ↦ absurd (ground (arith, h, panicked))
        | inr (x, done) ↦
            let step : said j x.0 ≡ (if addr == j then r else said j m) =
              ap (λ (y : BalanceMap × Balances.Applied). said j y.0)
                (apply-inversion addr r no_touch m x done)
              ∙ after-said (Balances.get addr m) addr r no_touch m j in
            elim (Bool-cases (addr == j)) [
              | inl same ↦ ground (
                arith,
                apply_stale-said rest x.0 m' right (ground (arith, h, done)) j,
                step,
                here ∙ ap truth ((bytes_eq_iff addr j).0 same),
              )
              | inr other ↦
                  ground
                    (arith, apply_stale-said rest x.0 m' right (ground (arith, h, done)) j, step)
            ]
      ]

module _ (node : Node) (truth : Address → Reading) (block : ℕ) (honest : AnswersAt node block truth)
    (j : Address) where
  open node use {World}

  -- What is true of a reading once it has been made is true of it in the watched state.
  on_watched_world-Keeps :
      {A : Type 0} (Q : A → Type 0) (P : Watched World → Type 0) (m : Run World Fault A)
      → ((s : Watched World) (w : World) → P s → P (record s { world = w }))
      → Keeps Always m (λ a w. Q a) Always
      → Keeps P (on_watched_world node m) (λ a s. Q a × P s) Always
  on_watched_world-Keeps {A = A} Q P m stable h = record {
    post = λ s p. go s p (m s.world) (h.post s.world tt);
  }
    where
      go :
          (s : Watched World)
          → P s
          → (r : Result Fault A × World) → Post (λ a w. Q a) Always r
          → Post (λ a s. Q a × P s) Always (r.0, record s { world = r.1 })
      go s p (ok a, w) q = (q, stable s w p)
      go s p (err e, w) q = (q.0, tt)

  -- Watched, or said right already.
  abbrev pub Covered : List Address → Watched World → Type 0
  Covered addrs s = (is_among j addrs ≡ true) ⊎ (said j s.map ≡ truth j)

  settle :
      (addrs : List Address) (readings : Table Address Reading) (m m' : BalanceMap)
      → Unique readings
      → ((i : Address) → Table.get i readings ≡ (if is_among i addrs then some (truth i) else none))
      → (is_among j addrs ≡ true) ⊎ (said j m ≡ truth j)
      → apply_stale readings m ≡ some m'
      → said j m' ≡ truth j
  settle addrs readings m m' once has covered h =
      unfold Table.contains_key in
      ground (
        arith,
        apply_stale-said truth readings m m'
            (Table.All-get (IsTrue truth) readings once (λ i r p. ground (arith, p, has i))) h j,
        has j,
        covered,
      )

  correct_stale_addresses-right :
      (addrs : List Address)
      → Keeps
          (Covered addrs)
          (correct_stale_addresses node addrs block)
          (λ t s. said j s.map ≡ truth j)
          Always
  unfolding correct_stale_addresses stale_into
  correct_stale_addresses-right [] = record { post = λ s covered. ground (arith, covered) }
  correct_stale_addresses-right (a ∷ rest) =
      bind-Keeps (on_watched_world node (read_balances node (a ∷ rest) block)) _
        (on_watched_world-Keeps _ (Covered (a ∷ rest)) _ (λ s w p. p)
          (read_balances-exact truth node block (a ∷ rest) honest))
        (λ readings. record {
          post = λ s ((once, has), covered).
              go readings s once has covered (apply_stale readings s.map) refl;
        })
    where
      go :
          (readings : Table Address Reading) (s : Watched World)
          → Unique readings
          → ((i : Address)
              → Table.get i readings ≡ (if is_among i (a ∷ rest) then some (truth i) else none))
          → Covered (a ∷ rest) s
          → (r : Option BalanceMap) → apply_stale readings s.map ≡ r
          → Post (λ t s'. said j s'.map ≡ truth j) Always (stale_into node r s)
      go readings s once has covered none e = (λ h. cc, tt)
      go readings s once has covered (some m') e =
          settle (a ∷ rest) readings s.map m' once has covered e

-- Let the node answer, when it answers, with the balances that the new chain has at the block that
-- the repair goes back to, and let an address be watched, or the map already say of it what it has
-- there. After a repair that succeeds the map stands at that block, its cursor less the window or 0,
-- and says of the address what it has there, and the watch is empty.
pub repair-right :
    (node : Node) (truth : Address → Reading) (window : ℕ) (j : Address) (s : Watched node.World)
    → AnswersAt node (s.map.cursor - window) truth
    → (is_among j (addresses s.watch) ≡ true) ⊎ (said j s.map ≡ truth j)
    → Post
        (λ t s'.
          (s'.map.cursor ≡ s.map.cursor - window)
          × (said j s'.map ≡ truth j)
          × (s'.watch ≡ record { cursor_hash = none; recent = [] }))
        Always
        (repair node window s)
unfolding repair rewind
repair-right node truth window j s honest covered =
    (bind-Keeps (correct_stale_addresses node (addresses s.watch) rewind_to) _
        (correct_stale_addresses-right node truth rewind_to honest j (addresses s.watch))
        (λ t. record {
          post = λ s' right. (refl, said-moved j s'.map rewind_to ∙ right, refl);
        })).post
      s covered
  where
    rewind_to : ℕ
    rewind_to = s.map.cursor - window
