-- ===== src/Follow/Apply/Ranges.antt =====
-- The map after a range of logs, with an honest node: the addresses that the logs tell of have their
-- balances at the block.
use poulpy_eth_pir_demo.Base.{
  ℕ, Bool, true, false, ◌||◌, ◌≡◌, ◌≢◌, refl, ap, ◌∙◌, ◌⊎◌, inl, inr, some, List, [], ◌∷◌, length,
  nat_eq, if◌then◌else◌, arith, Bool-cases,
}
use poulpy_eth_pir_demo.Base.Equality.{◌==◌, byte_list_eq, bytes_eq_iff}
use poulpy_eth_pir_demo.Base.Table
use poulpy_eth_pir_demo.Base.Table.{Table, or_default, is_some}
use poulpy_eth_pir_demo.Base.Run.{Result, ok, err}
use poulpy_eth_pir_demo.Tokens.{Address, usdt_token}
use poulpy_eth_pir_demo.Balances.{Reading}
use poulpy_eth_pir_demo.Chain.Touch.{Touch, no_touch, see}
use poulpy_eth_pir_demo.Chain.Events.{Log, Touched, Collected, collect_touched}
use poulpy_eth_pir_demo.Chain.Events.Words.{IsHolder}
use poulpy_eth_pir_demo.Chain.Events.Names.{named_by_any, collect_touched-last_seen}
use poulpy_eth_pir_demo.Chain.Events.Supply.{elem, supply_event_at, collect_touched-supply_blocks}
use poulpy_eth_pir_demo.Chain.Node.{Node, Message, of_rpc}
use poulpy_eth_pir_demo.Chain.Rpc.{usdt_owner}
use poulpy_eth_pir_demo.Chain.Rpc.Exact.{AnswersAt}
use poulpy_eth_pir_demo.Follow.Apply.Exact.{said, apply_touched-Updates}
use poulpy_eth_pir_demo.Follow.Stats.{only_logs}
use poulpy_eth_pir_demo.Follow.Apply.{
  Outputs, add_usdt_owner_touches, collect_addresses, apply_touched, apply_range,
}
use poulpy_eth_pir_demo.Follow.Syncer.Ends.{Post, Post-map, Keeps, Always, bind-Keeps}

-- A node that, when it answers for the owner of the USDT contract at a block, answers with who it is.
pub record AnswersOwner (node : Node) (treasury : ℕ → Address) : Type 0 where
  pub owner_answered :
      (block : ℕ) (w w' : node.World) (a : Address)
      → node.owner usdt_token block w ≡ (ok a, w')
      → a ≡ treasury block

-- The logs tell of an address: one names it, or reports a change of the USDT supply in a block at
-- which it owns the contract.
abbrev pub TellsOf : (ℕ → Address) → List Log → Address → Type 0
TellsOf treasury logs j =
    (named_by_any j logs ≡ true) ⊎ ((b : ℕ) × (supply_event_at b logs ≡ true) × (treasury b ≡ j))

module _ (node : Node) (treasury : ℕ → Address) (owners : AnswersOwner node treasury) where
  open node use {World}

  abbrev owns_one : Address → List ℕ → Bool
  owns_one j [] = false
  owns_one j (b ∷ rest) = treasury b == j || owns_one j rest

  owns_one-elem :
      (j : Address) (b : ℕ) (blocks : List ℕ)
      → elem b blocks ≡ true
      → treasury b ≡ j
      → owns_one j blocks ≡ true
  owns_one-elem j b [] h e = cc
  owns_one-elem j b (x ∷ blocks) h e = elim (Bool-cases (nat_eq x b)) [
    | inl same ↦
        let at_x : treasury x ≡ j = ap treasury (ground (arith, same)) ∙ e in
        ground (arith, (bytes_eq_iff (treasury x) j).1 at_x)
    | inr other ↦ ground (arith, owns_one-elem j b blocks (ground (arith, h, other)) e)
  ]

  usdt_owner-treasury :
      (block : ℕ) → Keeps Always (usdt_owner node block) (λ a w. a ≡ treasury block) Always
  unfolding usdt_owner
  usdt_owner-treasury block = record { post = λ w p. go w (node.owner usdt_token block w) refl }
    where
      go :
          (w : World) (r : Result Message Address × World)
          → node.owner usdt_token block w ≡ r
          → Post (λ a w. a ≡ treasury block) Always (of_rpc r)
      go w (ok a, w') e = owners.owner_answered block w w' a e
      go w (err m, w') e = (λ h. cc, tt)

  -- The owners are added to the addresses touched.
  owner_touches-added :
      (blocks : List ℕ) (touched : Touched)
      → Keeps Always
          (add_usdt_owner_touches node blocks touched)
          (λ touched' w.
            (j : Address)
            → Table.contains_key j touched' ≡ (Table.contains_key j touched || owns_one j blocks))
          Always
  unfolding add_usdt_owner_touches
  owner_touches-added [] touched = record { post = λ w p j. ground arith }
  owner_touches-added (block ∷ rest) touched =
      bind-Keeps (usdt_owner node block) _ (usdt_owner-treasury block) (λ owner. record {
        post = λ w is_owner.
            let t : Touch =
              see usdt_token (some block) (or_default no_touch (Table.get owner touched)) in
            Post-map Always (add_usdt_owner_touches node rest (Table.insert owner t touched) w)
              (λ touched' w' h j. added owner t is_owner j touched' (h j))
              ((owner_touches-added rest (Table.insert owner t touched)).post w tt);
      })
    where
      added :
          (owner : Address) (t : Touch)
          → owner ≡ treasury block
          → (j : Address) (touched' : Touched)
          → Table.contains_key j touched'
            ≡ (Table.contains_key j (Table.insert owner t touched) || owns_one j rest)
          → Table.contains_key j touched'
            ≡ (Table.contains_key j touched || (treasury block == j || owns_one j rest))
      added owner t is_owner j touched' h =
          let same_test : (owner == j) ≡ (treasury block == j) = ap (λ a. a == j) is_owner in
          unfold Table.contains_key in
          ground (arith, h, Table.get-insert owner j t touched, same_test)

  collect_addresses-TellsOf :
      (logs : List Log)
      → Keeps Always
          (collect_addresses node logs)
          (λ touched w.
            (j : Address)
            → IsHolder j
            → TellsOf treasury logs j
            → Table.contains_key j touched ≡ true)
          Always
  unfolding collect_addresses
  collect_addresses-TellsOf logs = record {
    post = λ w p.
        Post-map Always (collect_addresses node logs w)
          (λ touched w' h j holder tells. told j holder touched (h j) tells)
          ((owner_touches-added collected.1.usdt_supply_blocks collected.0).post w tt);
  }
    where
      collected : Touched × Collected
      collected = collect_touched logs []

      told :
          (j : Address)
          → IsHolder j
          → (touched : Touched)
          → Table.contains_key j touched
            ≡ (Table.contains_key j collected.0 || owns_one j collected.1.usdt_supply_blocks)
          → TellsOf treasury logs j
          → Table.contains_key j touched ≡ true
      told j holder touched h (inl named) =
          unfold Table.contains_key in
          ground (arith, h, collect_touched-last_seen j holder logs, named)
      told j holder touched h (inr (b, supply, owns)) = ground (
        arith,
        h,
        owns_one-elem j b collected.1.usdt_supply_blocks
            ((collect_touched-supply_blocks logs [] b).1 ∙ supply) owns,
      )

  module _ (truth : ℕ → Address → Reading) (at : ℕ) (honest : AnswersAt node at (truth at)) where
    -- After a range, the map says of each address either what its balances are at the block, or what
    -- it said before; and the first of each that the logs tell of.
    pub apply_range-exact :
        (logs : List Log) (o : Outputs)
        → Keeps Always
            (apply_range node logs at o)
            (λ r w.
              (j : Address)
              → IsHolder j
              → ((said j r.0.map ≡ truth at j) ⊎ (said j r.0.map ≡ said j o.map))
                × (TellsOf treasury logs j → said j r.0.map ≡ truth at j))
            Always
    unfolding apply_range
    apply_range-exact logs o =
        bind-Keeps (collect_addresses node logs) _ (collect_addresses-TellsOf logs) (λ touched.
          record {
            post = λ w tells. elim (Bool-cases (nat_eq (length touched) 0)) [
              | inl nobody ↦ rw nobody (λ j holder.
                  (inr refl, λ t. absurd (none_touched touched j nobody (tells j holder t))))
              | inr some_touched ↦ rw some_touched (
                  Post-map Always (apply_touched node at touched (started touched) w)
                    (λ r w' updates j holder. settle touched r.0 tells j holder (updates j))
                    ((apply_touched-Updates node at (truth at) honest touched
                        (started touched)).post
                      w tt))
            ];
          })
      where
        started : Touched → Outputs
        started touched = record o {
          stats = record (only_logs (length logs)) { touched = length touched };
        }

        none_touched :
            (touched : Touched) (j : Address)
            → nat_eq (length touched) 0 ≡ true
            → Table.contains_key j touched ≢ true
        none_touched [] j e h = unfold Table.contains_key Table.get in cc h
        none_touched (x ∷ touched) j e h = ground (arith, e)

        settle :
            (touched : Touched) (o' : Outputs)
            → ((j : Address)
                → IsHolder j
                → TellsOf treasury logs j
                → Table.contains_key j touched ≡ true)
            → (j : Address) → IsHolder j
            → said j o'.map ≡ (if Table.contains_key j touched then truth at j else said j o.map)
            → ((said j o'.map ≡ truth at j) ⊎ (said j o'.map ≡ said j o.map))
              × (TellsOf treasury logs j → said j o'.map ≡ truth at j)
        settle touched o' tells j holder h =
            (either (Table.contains_key j touched) h, λ t. h ∙ rw (tells j holder t) refl)
          where
            either :
                (b : Bool)
                → said j o'.map ≡ (if b then truth at j else said j o.map)
                → (said j o'.map ≡ truth at j) ⊎ (said j o'.map ≡ said j o.map)
            either true e = inl e
            either false e = inr e
