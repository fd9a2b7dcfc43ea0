-- ===== src/Chain/Events/Supply.antt =====
-- The blocks whose USDT supply events ask for the owner's balance to be read again.
use poulpy_eth_pir_demo.Base.{
  ℕ, ◌≤◌, ◌<◌, Bool, true, false, ◌&&◌, ◌||◌, ◌≡◌, refl, ◌∙◌, ap, Option, none, some, List, [], ◌∷◌,
  ◌++◌, nat_eq, if◌then◌else◌, arith, Option-cases, inl, inr,
}
use poulpy_eth_pir_demo.Base.Equality.{◌==◌, byte_list_eq, bytes_eq, bytes_eq_iff}
use poulpy_eth_pir_demo.Tokens.{Hash, usdt_token, issue, redeem, transfer, destroyed_black_funds}
use poulpy_eth_pir_demo.Chain.Events.{
  Log, Touched, Collected, understand, collect_transfer, collect_destroyed_black_funds,
  collect_topics, collect_supply_event, collect_log, collect_logs, collect_touched, insert_sorted,
  sort_unstable, dedup,
}

abbrev pub elem : ℕ → List ℕ → Bool
elem b [] = false
elem b (x ∷ xs) = nat_eq x b || elem b xs

abbrev Ascending : List ℕ → Type 0
Ascending [] = Unit
Ascending (x ∷ []) = Unit
Ascending (x ∷ y ∷ ys) = (x ≤ y) × Ascending (y ∷ ys)

-- Each number is below the next one, so none stands twice.
abbrev pub Increasing : List ℕ → Type 0
Increasing [] = Unit
Increasing (x ∷ []) = Unit
Increasing (x ∷ y ∷ ys) = (x < y) × Increasing (y ∷ ys)

elem-insert_sorted :
    (b x : ℕ) (ys : List ℕ) → elem b (insert_sorted x ys) ≡ (nat_eq x b || elem b ys)
unfolding insert_sorted
elem-insert_sorted b x [] = refl
elem-insert_sorted b x (y ∷ ys) = ground (arith, elem-insert_sorted b x ys)

elem-sort_unstable : (b : ℕ) (xs : List ℕ) → elem b (sort_unstable xs) ≡ elem b xs
unfolding sort_unstable
elem-sort_unstable b [] = refl
elem-sort_unstable b (x ∷ xs) =
    elem-insert_sorted b x (sort_unstable xs)
    ∙ ap (λ (t : Bool). nat_eq x b || t) (elem-sort_unstable b xs)

Ascending-insert_sorted : (x : ℕ) (ys : List ℕ) → Ascending ys → Ascending (insert_sorted x ys)
unfolding insert_sorted
Ascending-insert_sorted x [] h = tt
Ascending-insert_sorted x (y ∷ []) h = ground arith
Ascending-insert_sorted x (y ∷ z ∷ ys) h = ground (arith, Ascending-insert_sorted x (z ∷ ys) h.1)

Ascending-sort_unstable : (xs : List ℕ) → Ascending (sort_unstable xs)
unfolding sort_unstable
Ascending-sort_unstable [] = tt
Ascending-sort_unstable (x ∷ xs) =
    Ascending-insert_sorted x (sort_unstable xs) (Ascending-sort_unstable xs)

elem-dedup : (b : ℕ) (xs : List ℕ) → elem b (dedup xs) ≡ elem b xs
unfolding dedup
elem-dedup b [] = refl
elem-dedup b (x ∷ []) = refl
elem-dedup b (x ∷ y ∷ ys) = ground (arith, elem-dedup b (y ∷ ys))

-- The head stays, so what stands before it keeps its order.
dedup-below :
    (x y : ℕ) (ys : List ℕ) → x < y → Increasing (dedup (y ∷ ys)) → Increasing (x ∷ dedup (y ∷ ys))
unfolding dedup
dedup-below x y [] h k = (h, tt)
dedup-below x y (z ∷ ys) h k = ground (arith, dedup-below x z ys)

Increasing-dedup : (xs : List ℕ) → Ascending xs → Increasing (dedup xs)
unfolding dedup
Increasing-dedup [] h = tt
Increasing-dedup (x ∷ []) h = tt
Increasing-dedup (x ∷ y ∷ ys) h = ground (arith, Increasing-dedup (y ∷ ys) h.1, dedup-below x y ys)

-- The block of a log that reports a change of the USDT supply.
abbrev supply_block : Log → Option ℕ
supply_block log = elim log.topics [
  | [] ↦ none
  | topic ∷ rest ↦
      if (issue == topic || redeem == topic) && log.address == usdt_token
      then log.block_number
      else none
]

abbrev is_at : ℕ → Option ℕ → Bool
is_at b none = false
is_at b (some block) = nat_eq block b

abbrev pub supply_event_at : ℕ → List Log → Bool
supply_event_at b [] = false
supply_event_at b (log ∷ rest) = is_at b (supply_block log) || supply_event_at b rest

supply_topics_differ :
    (t : Hash)
    → (((t == transfer) ≡ true) → ((issue == t || redeem == t) ≡ false))
      × (((t == destroyed_black_funds) ≡ true) → ((issue == t || redeem == t) ≡ false))
supply_topics_differ t = (
  λ h. rw ((bytes_eq_iff t transfer).0 h) (unfold bytes_eq in refl),
  λ h. rw ((bytes_eq_iff t destroyed_black_funds).0 h) (unfold bytes_eq in refl),
)

elem-append : (b : ℕ) (xs ys : List ℕ) → elem b (xs ++ ys) ≡ (elem b xs || elem b ys)
elem-append b [] ys = refl
elem-append b (x ∷ xs) ys = ground (arith, elem-append b xs ys)

transfer_no_supply :
    (log : Log) (topics : List Hash) (out : Touched) (c : Collected)
    → (collect_transfer log topics out c).1.usdt_supply_blocks ≡ c.usdt_supply_blocks
unfolding collect_transfer understand
transfer_no_supply log [] out c = refl
transfer_no_supply log (t ∷ []) out c = refl
transfer_no_supply log (t ∷ u ∷ []) out c = refl
transfer_no_supply log (t ∷ u ∷ v ∷ []) out c = ground arith
transfer_no_supply log (t ∷ u ∷ v ∷ w ∷ r) out c = refl

destroyed_no_supply :
    (log : Log) (topics : List Hash) (out : Touched) (c : Collected)
    → (collect_destroyed_black_funds log topics out c).1.usdt_supply_blocks ≡ c.usdt_supply_blocks
unfolding collect_destroyed_black_funds understand
destroyed_no_supply log topics out c = ground arith

supply_lem :
    (b : ℕ) (log : Log) (c : Collected)
    → elem b (collect_supply_event log c).usdt_supply_blocks
      ≡ (elem b c.usdt_supply_blocks || is_at b log.block_number)
unfolding collect_supply_event understand
supply_lem b log c = elim (Option-cases log.block_number) [
  | inl absent ↦ rw absent (ground arith)
  | inr (block, here) ↦ rw here (ground (arith, elem-append b c.usdt_supply_blocks (block ∷ [])))
]

collect_topics-supply :
    (b : ℕ) (topics : List Hash) (log : Log) (out : Touched) (c : Collected)
    → elem b (collect_topics topics log out c).1.usdt_supply_blocks
      ≡ (elem b c.usdt_supply_blocks || is_at b (supply_block (record log { topics = topics })))
unfolding collect_topics
collect_topics-supply b [] log out c = ground arith
collect_topics-supply b (t ∷ rest) log out c = ground (
  arith,
  supply_topics_differ t,
  transfer_no_supply log (t ∷ rest) out c,
  destroyed_no_supply log (t ∷ rest) out c,
  supply_lem b log c,
)

collect_logs-supply :
    (b : ℕ) (logs : List Log) (out : Touched) (c : Collected)
    → elem b (collect_logs logs out c).1.usdt_supply_blocks
      ≡ (elem b c.usdt_supply_blocks || supply_event_at b logs)
unfolding collect_logs collect_log
collect_logs-supply b [] out c = ground arith
collect_logs-supply b (log ∷ rest) out c =
    let next = collect_topics log.topics log out c in
    ground (
      arith,
      collect_logs-supply b rest next.0 next.1,
      collect_topics-supply b log.topics log out c,
    )

-- The supply blocks collected are in increasing order, none twice, and a block is among them
-- exactly if a log of it reports a change of the USDT supply.
pub collect_touched-supply_blocks :
    (logs : List Log) (out : Touched) (b : ℕ)
    → let blocks = (collect_touched logs out).1.usdt_supply_blocks in
      Increasing blocks × (elem b blocks ≡ supply_event_at b logs)
unfolding collect_touched
collect_touched-supply_blocks logs out b =
    let blocks =
      (collect_logs logs out
        (record { understood = 0; usdt_supply_blocks = [] })).1.usdt_supply_blocks in
    (
      Increasing-dedup (sort_unstable blocks) (Ascending-sort_unstable blocks),
      elem-dedup b (sort_unstable blocks)
          ∙ elem-sort_unstable b blocks
          ∙ collect_logs-supply b logs out _,
    )
