-- ===== src/Chain/Events.antt =====
-- src/chain/events.rs: the logs of a block range projected onto the addresses that they touch.
pub mod Words
pub mod Names
pub mod Supply
use poulpy_eth_pir_demo.Base.{
  ℕ, ◌+◌, ◌≤◌, Bool, true, false, not, ◌&&◌, ◌||◌, Option, none, some, List, [], ◌∷◌, ◌++◌, length,
  take, drop, replicate, nat_eq, leb, ltb, if◌then◌else◌,
}
use poulpy_eth_pir_demo.Base.Equality.{◌==◌, byte_list_eq}
use poulpy_eth_pir_demo.Base.Table
use poulpy_eth_pir_demo.Base.Table.{Table, or_default}
use poulpy_eth_pir_demo.Tokens.{
  Address, Hash, usdt_token, transfer, destroyed_black_funds, supply_topics,
}
use poulpy_eth_pir_demo.Chain.Touch.{Touch, no_touch, see}

-- The parts of alloy's `Log` that the program reads.
pub record Log : Type 0 where
  pub address : Address
  pub topics : List Hash
  pub payload : List ℕ
  pub block_number : Option ℕ

unfoldable pub addr_from_word : List ℕ → Option Address
addr_from_word word =
    if not (nat_eq (length word) 32) || not (take 12 word == replicate 12 0)
    then none
    else let a = drop 12 word in if a == replicate 20 0 then none else some a

pub record Collected : Type 0 where
  pub understood : ℕ
  pub usdt_supply_blocks : List ℕ

abbrev pub Touched : Type 0
Touched = Table Address Touch

-- `out.entry(a).or_default().see(..)`
unfoldable pub touch : Address → Log → Touched → Touched
touch a log out =
    Table.insert a (see log.address log.block_number (or_default no_touch (Table.get a out))) out

unfoldable pub understand : Collected → Collected
understand c = record c { understood = c.understood + 1 }

abbrev pub all_zero : List ℕ → Bool
all_zero [] = true
all_zero (b ∷ bs) = nat_eq b 0 && all_zero bs

unfoldable pub transfer_is_inert : Log → Hash → Hash → Bool
transfer_is_inert log from to = all_zero log.payload || from == to

-- One topic of a transfer, if it holds an address.
unfoldable pub touch_word : Log → List ℕ → Touched → Touched
touch_word log word out = elim (addr_from_word word) [ none ↦ out | some a ↦ touch a log out ]

unfoldable pub collect_transfer : Log → List Hash → Touched → Collected → Touched × Collected
collect_transfer log (topic ∷ from ∷ to ∷ []) out c =
    if transfer_is_inert log from to
    then (out, understand c)
    else (touch_word log to (touch_word log from out), understand c)
collect_transfer log _ out c = (out, c)

-- The second topic, or else the first 32 bytes of the data, if there are as many.
unfoldable pub funds_word : Log → List Hash → Option (List ℕ)
funds_word log (topic ∷ word ∷ rest) = some word
funds_word log _ = if leb 32 (length log.payload) then some (take 32 log.payload) else none

unfoldable pub funds_address : Option (List ℕ) → Option Address
funds_address none = none
funds_address (some word) = addr_from_word word

unfoldable pub collect_destroyed_black_funds :
    Log → List Hash → Touched → Collected → Touched × Collected
collect_destroyed_black_funds log topics out c = elim (funds_address (funds_word log topics)) [
  | none ↦ (out, c)
  | some a ↦ (touch a log out, understand c)
]

unfoldable pub collect_supply_event : Log → Collected → Collected
collect_supply_event log c = understand (elim log.block_number [
  | none ↦ c
  | some block ↦ record c { usdt_supply_blocks = c.usdt_supply_blocks ++ (block ∷ []) }
])

abbrev contains : List Hash → Hash → Bool
contains [] t = false
contains (x ∷ xs) t = x == t || contains xs t

unfoldable pub collect_topics : List Hash → Log → Touched → Collected → Touched × Collected
collect_topics [] log out c = (out, c)
collect_topics (topic0 ∷ rest) log out c =
    if topic0 == transfer
    then collect_transfer log (topic0 ∷ rest) out c
    else if topic0 == destroyed_black_funds
    then collect_destroyed_black_funds log (topic0 ∷ rest) out c
    else if contains supply_topics topic0 && log.address == usdt_token
    then (out, collect_supply_event log c)
    else (out, c)

unfoldable pub collect_log : Log → Touched → Collected → Touched × Collected
collect_log log out c = collect_topics log.topics log out c

unfoldable pub collect_logs : List Log → Touched → Collected → Touched × Collected
collect_logs [] out c = (out, c)
collect_logs (log ∷ rest) out c =
    let (out', c') = collect_log log out c in collect_logs rest out' c'

-- `sort_unstable` and `dedup` of the standard library: equal numbers are not told apart, so any
-- sort gives the same list.
unfoldable pub insert_sorted : ℕ → List ℕ → List ℕ
insert_sorted x [] = x ∷ []
insert_sorted x (y ∷ ys) = if leb x y then x ∷ y ∷ ys else y ∷ insert_sorted x ys

unfoldable pub sort_unstable : List ℕ → List ℕ
sort_unstable [] = []
sort_unstable (x ∷ xs) = insert_sorted x (sort_unstable xs)

unfoldable pub dedup : List ℕ → List ℕ
dedup [] = []
dedup (x ∷ []) = x ∷ []
dedup (x ∷ y ∷ ys) = let rest = dedup (y ∷ ys) in if nat_eq x y then rest else x ∷ rest

unfoldable pub collect_touched : List Log → Touched → Touched × Collected
collect_touched logs out =
    let (out', c) = collect_logs logs out (record { understood = 0; usdt_supply_blocks = [] }) in
    (out', record c { usdt_supply_blocks = dedup (sort_unstable c.usdt_supply_blocks) })
