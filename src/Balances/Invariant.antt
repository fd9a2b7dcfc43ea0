-- ===== src/Balances/Invariant.antt =====
-- The balance map never holds a record of two zero balances, and no address twice.
use poulpy_eth_pir_demo.Base.{
  ℕ, false, ◌≡◌, refl, Option, some, List, [], ◌∷◌, arith, Option-cases, inl, inr,
}
use poulpy_eth_pir_demo.Base.Equality.{byte_list_eq}
use poulpy_eth_pir_demo.Base.Table
use poulpy_eth_pir_demo.Base.Table.{Unique, Unique-insert, Unique-remove}
use poulpy_eth_pir_demo.Tokens.{Address}
use poulpy_eth_pir_demo.Record.{Entry}
use poulpy_eth_pir_demo.Record
use poulpy_eth_pir_demo.Chain.Touch.{Touch}
use poulpy_eth_pir_demo.Balances.{
  Reading, BalanceMap, Applied, is_zero, new, get, apply, remove_if_zero, prune_each, prune_zero,
}
use poulpy_eth_pir_demo.Balances.Apply.{Fits, after, apply-after, get-after, refreshed}

-- Every record held has a balance.
pub record HoldsBalances (m : BalanceMap) : Type 0 where
  pub once : Unique m.inner
  pub nonzero : (j : Address) (e : Entry) → get j m ≡ some e → Record.is_zero e ≡ false

pub new-HoldsBalances : (cursor : ℕ) → HoldsBalances (new cursor)
unfolding new get Table.get
new-HoldsBalances cursor = record { once = tt; nonzero = λ j e h. cc }

pub after-HoldsBalances :
    (known : Option Entry) (addr : Address) (r : Reading) (seen : Touch) (m : BalanceMap)
    → HoldsBalances m
    → HoldsBalances (after known addr r seen m)
after-HoldsBalances known addr r seen m h = record {
  once = once_after;
  nonzero = λ j e p.
      unfold is_zero Record.is_zero in
      ground (arith, get-after known addr j r seen m, h.nonzero j e);
}
  where
    once_after : Unique (after known addr r seen m).inner
    once_after =
        unfold after in
        ground (
          arith,
          Unique-remove addr m.inner h.once,
          Unique-insert addr (refreshed known r seen) m.inner h.once,
        )

remove_if_zero_keeps : (a : Address) (m : BalanceMap) → HoldsBalances m → remove_if_zero a m ≡ m
unfolding remove_if_zero get
remove_if_zero_keeps a m h = elim (Option-cases (Table.get a m.inner)) [
  | inl missing ↦ ground arith
  | inr (e, found) ↦ ground (arith, h.nonzero a e found)
]

prune_each_keeps :
    (candidates : List Address) (m : BalanceMap) → HoldsBalances m → prune_each candidates m ≡ m
unfolding prune_each
prune_each_keeps [] m h = refl
prune_each_keeps (a ∷ rest) m h = rw (remove_if_zero_keeps a m h) (prune_each_keeps rest m h)

-- In such a map pruning finds nothing to remove, whatever the candidates.
pub prune_zero_keeps :
    (candidates : List Address) (m : BalanceMap)
    → HoldsBalances m
    → prune_zero candidates m ≡ (m, 0)
unfolding prune_zero
prune_zero_keeps candidates m h = rw (prune_each_keeps candidates m h) (ground arith)

-- In a map whose records all have a balance and whose addresses are there once, applying a
-- reading whose blocks fit 32 bits does not panic and keeps both; so pruning the map afterwards
-- removes nothing, whatever the candidates.
pub apply-HoldsBalances :
    (addr : Address) (r : Reading) (seen : Touch) (candidates : List Address) (m : BalanceMap)
    → Fits seen
    → HoldsBalances m
    → (m' : BalanceMap) × (a : Applied) × (apply addr r seen m ≡ some (m', a))
      × HoldsBalances m'
      × (prune_zero candidates m' ≡ (m', 0))
apply-HoldsBalances addr r seen candidates m f h =
    let kept = after-HoldsBalances (get addr m) addr r seen m h in
    (_, _, apply-after addr r seen m f, kept, prune_zero_keeps candidates _ kept)

pub cursor-prune_each :
    (candidates : List Address) (m : BalanceMap) → (prune_each candidates m).cursor ≡ m.cursor
unfolding prune_each remove_if_zero
cursor-prune_each [] m = refl
cursor-prune_each (a ∷ rest) m = ground (arith, cursor-prune_each rest (remove_if_zero a m))
