-- ===== src/Examples/Honest.antt =====
-- A chain on which one address gets a balance, and a node that answers with what is on it.
use poulpy_eth_pir_demo.Base.{
  ℕ, ◌-◌, ◌+◌, ◌≤◌, ◌≡◌, ◌⊎◌, inl, inr, refl, ap, subst, true, ◌&&◌, Option, none, some, List, [],
  ◌∷◌, ◌++◌, replicate, leb, if◌then◌else◌, arith, Bool-cases,
}
use poulpy_eth_pir_demo.Base.Equality.{◌==◌, byte_list_eq, bytes_eq}
use poulpy_eth_pir_demo.Base.Table
use poulpy_eth_pir_demo.Base.Table.{Unique}
use poulpy_eth_pir_demo.Base.Run.{Result, ok, err}
use poulpy_eth_pir_demo.Tokens.{Address, Hash, usdt_token, transfer}
use poulpy_eth_pir_demo.Balances.{Reading, BalanceMap, new}
use poulpy_eth_pir_demo.Balances
use poulpy_eth_pir_demo.Chain.Events.{Log}
use poulpy_eth_pir_demo.Chain.Events.Words.{word_of}
use poulpy_eth_pir_demo.Chain.Node.{Node, Call, CallResult, Message}
use poulpy_eth_pir_demo.Chain.Rpc.{read_balances, from_be_bytes, balance_calls, owner_calls}
use poulpy_eth_pir_demo.Chain.Rpc.Exact.{
  Says, Answered, nobody, both, is_among, read_balances-exact,
}
use poulpy_eth_pir_demo.Follow.Apply.Exact.{said}
use poulpy_eth_pir_demo.Follow.Apply.Ranges.{TellsOf}
use poulpy_eth_pir_demo.Follow.Syncer.{sync}
use poulpy_eth_pir_demo.Follow.Syncer.Ends.{Post, Keeps, Always}
use poulpy_eth_pir_demo.Follow.Syncer.Exact.{IsHonest, sync-right}
use poulpy_eth_pir_demo.Follow.Watch.{Watched, repair, addresses, add_recent, add_all}
use poulpy_eth_pir_demo.Follow.Loop.Near.{IsThorough, IsThorough-IsHonest}
use poulpy_eth_pir_demo.Follow.Watch.Steady.{IsSteady}
use poulpy_eth_pir_demo.Follow.Watch.Right.{repair-right}
use poulpy_eth_pir_demo.Text.{to_decimal}
use poulpy_eth_pir_demo.Target.{number, from_str}
use poulpy_eth_pir_demo.Target.Parse.{from_str-to_decimal}
use poulpy_eth_pir_demo.Examples.Records.{alice, bob}
use poulpy_eth_pir_demo.Examples.Logs.{alice-IsHolder}
use poulpy_eth_pir_demo.Examples.Chunks.{quiet_node, config, at_block}

-- From block 103 on, one address has 7 USDT.
abbrev pub chain_truth : ℕ → Address → Reading
chain_truth block j = record { usdt = if leb 103 block && alice == j then 7 else 0; usdc = 0 }

abbrev payment : Log
payment = record {
  address = usdt_token;
  topics = transfer ∷ word_of bob ∷ word_of alice ∷ [];
  payload = 1 ∷ [];
  block_number = some 103;
}

abbrev word : ℕ → CallResult
word v = record { success = true; return_data = replicate 31 0 ++ (v ∷ []) }

abbrev answers : ℕ → List Call → List CallResult
answers block [] = []
answers block (call ∷ rest) =
    word (if call.target == usdt_token then (chain_truth block call.call_data).usdt else 0)
    ∷ answers block rest

-- A block's hash ends in its number, and never changes.
abbrev pub chain_hash : ℕ → Option Hash
chain_hash block = some (replicate 31 0 ++ (block ∷ []))

-- A node over the chain, whatever it answers for hashes.
abbrev pub chain_node : (ℕ → ℕ → Result Message (Option Hash) × ℕ) → Node
chain_node hash_at = record {
  World = ℕ;
  get_logs = λ from to w. (ok (if leb from 103 && leb 103 to then payment ∷ [] else []), w + 1);
  -- The head, too, moves on after the first call.
  get_block_number = λ w. (ok (if leb w 0 then 133 else 139), w + 1);
  get_chain_id = quiet_node.get_chain_id;
  -- The finalized block is another after the first call.
  finalized_number = λ w. (ok (some (if leb w 0 then 101 else 107)), w + 1);
  hash_at = hash_at;
  aggregate = λ calls block w. (ok (answers block calls), w + 1);
  owner = quiet_node.owner;
  balance_of_call = λ holder. holder;
  now = quiet_node.now;
  unix_time = quiet_node.unix_time;
  write_file = quiet_node.write_file;
}

abbrev pub honest_node : Node
honest_node = chain_node (λ block w. (ok (chain_hash block), w + 1))

pub hashes : IsSteady honest_node chain_hash
hashes = record { steady = λ block w w' h e. cc }

word-Says : (v : ℕ) → Says (word v) v
unfolding from_be_bytes
word-Says v = inr (refl, refl, omega arith)

all-Answered :
    (hash_at : ℕ → ℕ → Result Message (Option Hash) × ℕ) (block : ℕ) (holders : List Address)
    → Answered
        (chain_truth block)
        holders
        (answers block (balance_calls (chain_node hash_at) holders))
unfolding balance_calls owner_calls bytes_eq
all-Answered hash_at block [] = nobody
all-Answered hash_at block (j ∷ rest) =
    both (word-Says _) (word-Says 0) (all-Answered hash_at block rest)

module _ {A : Type 0} where
  abbrev or_none : Result Message (List A) → List A
  or_none (ok xs) = xs
  or_none (err m) = []

-- The payment is told of, or the balances are the same all along.
payment_tells :
    (cursor hi : ℕ)
    → cursor + 1 ≤ hi
    → ((b : ℕ) → cursor ≤ b → b ≤ hi → chain_truth b alice ≡ chain_truth hi alice)
      ⊎ TellsOf
          (λ block. alice)
          (if leb (cursor + 1) 103 && leb 103 hi then payment ∷ [] else [])
          alice
unfolding bytes_eq word_of
payment_tells cursor hi order = elim (Bool-cases (leb (cursor + 1) 103 && leb 103 hi)) [
  | inl inside ↦ rw inside (inr (inl refl))
  | inr outside ↦ inl (λ b low high. ground (arith, outside))
]

pub thorough :
    (hash_at : ℕ → ℕ → Result Message (Option Hash) × ℕ)
    → IsThorough (chain_node hash_at) chain_truth (λ block. alice) alice
unfolding bytes_eq word_of
thorough hash_at = record {
  balances = λ block. record {
    answered = λ holders w w' results e.
        subst (λ (rs : List CallResult). Answered (chain_truth block) holders rs)
          (ap (λ r. or_none r.0) e) (all-Answered hash_at block holders);
  };
  owners = record { owner_answered = λ block w w' a e. cc };
  tells = λ cursor hi logs order (w, w', e).
      subst
        (λ (rs : List Log).
          ((b : ℕ) → cursor ≤ b → b ≤ hi → chain_truth b alice ≡ chain_truth hi alice)
          ⊎ TellsOf (λ block. alice) rs alice)
        (ap (λ r. or_none r.0) e) (payment_tells cursor hi order);
}

pub honest : IsHonest honest_node chain_truth (λ block. alice) alice
honest = IsThorough-IsHonest (thorough _)

sync-right_example :
    Post
      (λ t s'. (s'.map.cursor ≡ 107) × (said alice s'.map ≡ chain_truth 107 alice))
      (λ s'. said alice s'.map ≡ chain_truth s'.map.cursor alice)
      (sync honest_node config 100 107 at_block)
unfolding new Balances.get Table.get
sync-right_example =
    sync-right honest_node config 100 107 chain_truth (λ block. alice) alice alice-IsHolder honest
      at_block refl (omega arith) (omega arith) refl

read_balances-exact_example :
    Keeps Always
      (read_balances honest_node (alice ∷ bob ∷ []) 105)
      (λ readings w.
        Unique readings
        × ((j : Address)
            → Table.get j readings
              ≡ (if is_among j (alice ∷ bob ∷ []) then some (chain_truth 105 j) else none)))
      Always
read_balances-exact_example =
    read_balances-exact (chain_truth 105) honest_node 105 (alice ∷ bob ∷ []) (honest.balances 105)

-- A payment in block 103 that the new chain does not have yet at block 46.
abbrev reorged : Watched ℕ
reorged = record {
  world = 0;
  watch = record { cursor_hash = none; recent = (105, alice ∷ []) ∷ [] };
  map = record {
    inner = (alice, record { usdt = 7; usdt_block = 103; usdc = 0; usdc_block = 0 }) ∷ [];
    cursor = 110;
  };
}

repair-right_example :
    Post
      (λ t s'.
        (s'.map.cursor ≡ 110 - 64)
        × (said alice s'.map ≡ chain_truth 46 alice)
        × (s'.watch ≡ record { cursor_hash = none; recent = [] }))
      Always
      (repair honest_node 64 reorged)
unfolding addresses add_recent add_all Table.insert bytes_eq
repair-right_example =
    repair-right honest_node (chain_truth 46) 64 alice reorged (honest.balances 46) (inl refl)

from_str-to_decimal_example : from_str (to_decimal 20000107) ≡ some (number 20000107)
from_str-to_decimal_example = from_str-to_decimal 20000107 (omega arith)
