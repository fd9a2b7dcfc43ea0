-- ===== src/Balances/Inversion.antt =====
-- A reading that was applied did what `Balances.Apply` says, whatever blocks it came with.
use poulpy_eth_pir_demo.Base.{
  ℕ, ◌^◌, Option, none, some, ◌≡◌, ◌⊎◌, inl, inr, ltb, arith, Bool-cases, refl,
}
use poulpy_eth_pir_demo.Base.Equality.{byte_list_eq}
use poulpy_eth_pir_demo.Base.Table
use poulpy_eth_pir_demo.Base.Table.Size.{remove_absent}
use poulpy_eth_pir_demo.Tokens.{Address}
use poulpy_eth_pir_demo.Record.{Entry}
use poulpy_eth_pir_demo.Chain.Touch.{Touch}
use poulpy_eth_pir_demo.Balances.{
  Reading, BalanceMap, Applied, block32, first_block, update_block, stamp_seen_blocks,
  apply_existing, insert_new, apply_to, apply, get,
}
use poulpy_eth_pir_demo.Balances.Apply.{BlockFits, after, reported, apply_to_lem}

-- A block number fits, or every use of it is a panic.
BlockFits-or_panics :
    (b : Option ℕ)
    → BlockFits b ⊎ ((first_block b ≡ none) × ((slot : ℕ) → update_block slot b ≡ none))
unfolding first_block update_block block32
BlockFits-or_panics none = inl tt
BlockFits-or_panics (some b) = elim (Bool-cases (ltb b (2 ^ 32))) [
  | inl small ↦ inl (ground arith)
  | inr large ↦ inr (ground arith, λ slot. ground arith)
]

abbrev Panics : Option ℕ → Type 0
Panics b = (first_block b ≡ none) × ((slot : ℕ) → update_block slot b ≡ none)

-- With a block that does not fit, the only reading that is applied is none at all for an address
-- that is not held.
apply_to-Panics :
    (known : Option Entry) (addr : Address) (r : Reading) (seen : Touch) (m : BalanceMap)
    (x : BalanceMap × Applied)
    → Panics seen.usdt ⊎ Panics seen.usdc
    → Table.get addr m.inner ≡ known
    → apply_to known addr r seen m ≡ some x
    → x ≡ (after known addr r seen m, reported known r seen)
unfolding apply_to apply_existing stamp_seen_blocks insert_new after
apply_to-Panics none addr r seen m x (inl (p, q)) k h = ground (arith, remove_absent addr m.inner k)
apply_to-Panics none addr r seen m x (inr (p, q)) k h = ground (arith, remove_absent addr m.inner k)
apply_to-Panics (some e) addr r seen m x (inl (p, q)) k h = ground (arith, q e.usdt_block)
apply_to-Panics (some e) addr r seen m x (inr (p, q)) k h = ground (arith, q e.usdc_block)

pub apply-inversion :
    (addr : Address) (r : Reading) (seen : Touch) (m : BalanceMap) (x : BalanceMap × Applied)
    → apply addr r seen m ≡ some x
    → x ≡ (after (get addr m) addr r seen m, reported (get addr m) r seen)
unfolding apply get
apply-inversion addr r seen m x h =
    go (BlockFits-or_panics seen.usdt) (BlockFits-or_panics seen.usdc)
  where
    go :
        BlockFits seen.usdt ⊎ Panics seen.usdt
        → BlockFits seen.usdc ⊎ Panics seen.usdc
        → x
          ≡ (after (Table.get addr m.inner) addr r seen m, reported (Table.get addr m.inner) r seen)
    go (inl p) (inl q) =
        ground (arith, apply_to_lem (Table.get addr m.inner) addr r seen m (p, q) refl)
    go (inr p) q = apply_to-Panics (Table.get addr m.inner) addr r seen m x (inl p) refl h
    go (inl p) (inr q) = apply_to-Panics (Table.get addr m.inner) addr r seen m x (inr q) refl h
