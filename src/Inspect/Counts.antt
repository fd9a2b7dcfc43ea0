-- ===== src/Inspect/Counts.antt =====
-- The counts over a snapshot.
use poulpy_eth_pir_demo.Base.{
  ℕ, ◌+◌, ◌-◌, ◌≤◌, ◌<◌, ◌^◌, ◌≡◌, ◌≢◌, refl, subst, sym, ◌∙◌, ◌⊎◌, Bool-cases, inl, inr, false, [],
  ◌∷◌, length, All, some, arith,
}
use poulpy_eth_pir_demo.Base.Equality.{◌==◌, byte_list_eq, bytes_eq_iff, eq_self}
use poulpy_eth_pir_demo.Base.Table
use poulpy_eth_pir_demo.Base.Table.{Table, Unique}
use poulpy_eth_pir_demo.Tokens.{Address}
use poulpy_eth_pir_demo.Record.{Entry}
use poulpy_eth_pir_demo.Record
use poulpy_eth_pir_demo.Balances.{BalanceMap, get}
use poulpy_eth_pir_demo.Balances.Invariant.{HoldsBalances}
use poulpy_eth_pir_demo.Inspect.{
  SnapshotStats, no_stats, add_usdt, add_usdc, add, add_each, from_map,
}

abbrev HasBalance : Address × Entry → Type 0
HasBalance (address, e) = Record.is_zero e ≡ false

-- After `n` rows.
record Counted (n : ℕ) (out : SnapshotStats) : Type 0 where
  usdt_le : out.usdt_holders ≤ n
  usdc_le : out.usdc_holders ≤ n
  both_le : out.both ≤ n
  sum : out.usdt_holders + out.usdc_holders ≡ n + out.both

add-Counted :
    (n : ℕ) (e : Entry) (out : SnapshotStats)
    → Record.is_zero e ≡ false
    → n + 1 < 2 ^ 64
    → Counted n out
    → Counted (n + 1) (add e out)
unfolding add add_usdt add_usdc Record.is_zero
add-Counted n e out holds small c = record {
  usdt_le = ground (arith, c);
  usdc_le = ground (arith, c);
  both_le = ground (arith, c);
  sum = ground (arith, c);
}

add_each-Counted :
    (n : ℕ) (rows : Table Address Entry) (out : SnapshotStats)
    → All HasBalance rows
    → n + length rows < 2 ^ 64
    → Counted n out
    → Counted (n + length rows) (add_each rows out)
unfolding add_each
add_each-Counted n [] out h small c = subst (λ k. Counted k out) (omega arith) c
add_each-Counted n ((address, e) ∷ rows) out (h, rest) small c =
    subst (λ k. Counted k (add_each rows (add e out))) (omega arith)
      (add_each-Counted (n + 1) rows (add e out) rest (omega arith)
        (add-Counted n e out h (omega arith) c))

-- Over a map with every address once and no record without a balance, the two counts of holders add
-- up to the number of addresses and of those that hold both tokens.
pub from_map-counts :
    (m : BalanceMap)
    → HoldsBalances m
    → length m.inner < 2 ^ 64
    → (from_map m).usdt_holders + (from_map m).usdc_holders ≡ length m.inner + (from_map m).both
unfolding from_map
from_map-counts m holds small = omega (
  arith,
  (add_each-Counted 0 m.inner no_stats
      (Table.All-get HasBalance m.inner holds.once (λ j e p. holds.nonzero j e (unfold get in p)))
      (omega arith)
      (record {
        usdt_le = omega arith;
        usdc_le = omega arith;
        both_le = omega arith;
        sum = refl;
      })).sum,
)

-- A bound below the last changes of what a record holds.
abbrev pub IsOldest : ℕ → Entry → Type 0
IsOldest block e = ((e.usdt ≢ 0) → block ≤ e.usdt_block) × ((e.usdc ≢ 0) → block ≤ e.usdc_block)

add-IsOldest :
    (e : Entry) (out : SnapshotStats)
    → ((add e out).stalest ≤ out.stalest) × IsOldest (add e out).stalest e
unfolding add add_usdt add_usdc
add-IsOldest e out = (ground arith, (λ h. ground arith, λ h. ground arith))

add_each-oldest :
    (rows : Table Address Entry) (out : SnapshotStats) → (add_each rows out).stalest ≤ out.stalest
unfolding add_each
add_each-oldest [] out = omega arith
add_each-oldest ((address, e) ∷ rows) out =
    omega (arith, add_each-oldest rows (add e out), (add-IsOldest e out).0)

add_each-IsOldest :
    (rows : Table Address Entry) (out : SnapshotStats) (j : Address) (e : Entry)
    → Table.get j rows ≡ some e
    → IsOldest (add_each rows out).stalest e
unfolding add_each Table.get
add_each-IsOldest [] out j e h = cc
add_each-IsOldest ((address, e') ∷ rows) out j e h = elim (Bool-cases (address == j)) [
  | inl here ↦
      let same : e' ≡ e = ground (arith, h) in
      rw (← same) (
        λ u. omega (arith, add_each-oldest rows (add e' out), (add-IsOldest e' out).1.0 u),
        λ u. omega (arith, add_each-oldest rows (add e' out), (add-IsOldest e' out).1.1 u),
      )
  | inr there ↦ add_each-IsOldest rows (add e' out) j e (ground (arith, h))
]

-- A last change of what a record holds.
abbrev pub IsChange : ℕ → Entry → Type 0
IsChange block e = ((e.usdt ≢ 0) × (e.usdt_block ≡ block)) ⊎ ((e.usdc ≢ 0) × (e.usdc_block ≡ block))

add-IsChange :
    (e : Entry) (out : SnapshotStats)
    → ((add e out).stalest ≡ out.stalest) ⊎ IsChange (add e out).stalest e
unfolding add add_usdt add_usdc
add-IsChange e out = ground arith

-- What was the oldest so far, or a change of a row.
add_each-reached :
    (rows : Table Address Entry) (out : SnapshotStats)
    → Unique rows
    → ((add_each rows out).stalest ≡ out.stalest)
      ⊎ ((j : Address) × (e : Entry) × (Table.get j rows ≡ some e)
          × IsChange (add_each rows out).stalest e)
unfolding add_each
add_each-reached [] out once = inl refl
add_each-reached ((address, e) ∷ rows) out (fresh, once) =
    elim (add_each-reached rows (add e out) once) [
      | inl same ↦ elim (add-IsChange e out) [
        | inl before ↦ inl (same ∙ before)
        | inr change ↦ inr (address, e, here, subst (λ b. IsChange b e) (sym same) change)
      ]
      | inr (j, e', held, change) ↦ inr (j, e', there j e' held, change)
    ]
  where
    here : Table.get address ((address, e) ∷ rows) ≡ some e
    here = unfold Table.get in rw (eq_self address) refl

    there :
        (j : Address) (e' : Entry)
        → Table.get j rows ≡ some e'
        → Table.get j ((address, e) ∷ rows) ≡ some e'
    there j e' held = unfold Table.get in ground (arith, held, fresh, bytes_eq_iff address j)

-- Over a map with every address once and no record without a balance, the oldest change reported is
-- no later than the last change of any balance in the map, and is itself the last change of a balance
-- in the map, or the largest number of 32 bits, which it is for the empty map.
pub from_map-IsOldest :
    (m : BalanceMap)
    → HoldsBalances m
    → ((j : Address) (e : Entry) → get j m ≡ some e → IsOldest (from_map m).stalest e)
      × (((from_map m).stalest ≡ 2 ^ 32 - 1)
          ⊎ ((j : Address) × (e : Entry) × (get j m ≡ some e) × IsChange (from_map m).stalest e))
unfolding from_map get
from_map-IsOldest m holds = (
  λ j e h. add_each-IsOldest m.inner no_stats j e h,
  add_each-reached m.inner no_stats holds.once,
)
