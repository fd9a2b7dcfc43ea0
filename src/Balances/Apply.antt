-- ===== src/Balances/Apply.antt =====
-- What applying one reading does to the balance map, on every branch.
use poulpy_eth_pir_demo.Base.{
  ℕ, ◌<◌, ◌^◌, Bool, ◌&&◌, not, nat_eq, ◌≡◌, refl, Option, none, some, arith, if◌then◌else◌,
}
use poulpy_eth_pir_demo.Base.Equality.{◌==◌, byte_list_eq}
use poulpy_eth_pir_demo.Base.Table
use poulpy_eth_pir_demo.Base.Table.{or_default}
use poulpy_eth_pir_demo.Base.Table.Size.{remove_absent}
use poulpy_eth_pir_demo.Tokens.{Address}
use poulpy_eth_pir_demo.Record.{Entry, no_entry}
use poulpy_eth_pir_demo.Record
use poulpy_eth_pir_demo.Chain.Touch.{Touch}
use poulpy_eth_pir_demo.Balances.{Reading, BalanceMap, Applied, is_zero, apply, get}
use poulpy_eth_pir_demo.Balances.{
  block32, first_block, update_block, update_balance, stamp_seen_blocks, write_balances,
  apply_existing, insert_new, apply_to,
}
use poulpy_eth_pir_demo.Balances.{inserted, updated, unchanged, skipped_new_zero, removed}

-- The block numbers of a touch fit the record's 32 bits.
abbrev pub BlockFits : Option ℕ → Type 0
BlockFits none = Unit
BlockFits (some b) = b < 2 ^ 32

abbrev pub Fits : Touch → Type 0
Fits seen = BlockFits seen.usdt × BlockFits seen.usdc

-- The record that a reading makes of what was known of an address: the balances are the reading's,
-- and a block is the one seen, or else the one known.
abbrev pub refreshed : Option Entry → Reading → Touch → Entry
refreshed known r seen =
    let old = or_default no_entry known in
    record {
      usdt = r.usdt;
      usdt_block = or_default old.usdt_block seen.usdt;
      usdc = r.usdc;
      usdc_block = or_default old.usdc_block seen.usdc;
    }

-- Whether two records agree in every field.
abbrev pub same : Entry → Entry → Bool
same e f =
    nat_eq e.usdt f.usdt
    && nat_eq e.usdt_block f.usdt_block
    && nat_eq e.usdc f.usdc
    && nat_eq e.usdc_block f.usdc_block

-- What a reading is reported as, from what was known of the address.
abbrev pub reported : Option Entry → Reading → Touch → Applied
reported none r seen = if is_zero r then skipped_new_zero else inserted
reported (some e) r seen =
    if is_zero r
    then removed (refreshed (some e) r seen)
    else if same e (refreshed (some e) r seen)
    then unchanged
    else updated

first_block_lem : (b : Option ℕ) → BlockFits b → first_block b ≡ some (or_default 0 b)
unfolding first_block block32
first_block_lem none h = refl
first_block_lem (some b) h = ground arith

update_block_lem :
    (slot : ℕ) (b : Option ℕ)
    → BlockFits b
    → update_block slot b ≡ some (or_default slot b, not (nat_eq slot (or_default slot b)))
unfolding update_block block32
update_block_lem slot none h = ground arith
update_block_lem slot (some b) h = ground arith

apply_existing_lem :
    (e : Entry) (r : Reading) (seen : Touch)
    → Fits seen
    → let e' = refreshed (some e) r seen in
      apply_existing e r seen ≡ some (e', if same e e' then unchanged else updated)
unfolding apply_existing stamp_seen_blocks write_balances update_balance
apply_existing_lem e r seen h =
    rw (update_block_lem e.usdt_block seen.usdt h.0, update_block_lem e.usdc_block seen.usdc h.1)
      (ground arith)

-- The map after a reading, from what was known of the address.
unfoldable pub after : Option Entry → Address → Reading → Touch → BalanceMap → BalanceMap
after known addr r seen m =
    if is_zero r
    then record m { inner = Table.remove addr m.inner }
    else record m { inner = Table.insert addr (refreshed known r seen) m.inner }

pub apply_to_lem :
    (known : Option Entry) (addr : Address) (r : Reading) (seen : Touch) (m : BalanceMap)
    → Fits seen
    → Table.get addr m.inner ≡ known
    → apply_to known addr r seen m ≡ some (after known addr r seen m, reported known r seen)
unfolding apply_to insert_new after is_zero Record.is_zero
apply_to_lem none addr r seen m h k = ground (
  arith,
  first_block_lem seen.usdt h.0,
  first_block_lem seen.usdc h.1,
  remove_absent addr m.inner k,
)
apply_to_lem (some e) addr r seen m h k = rw (apply_existing_lem e r seen h) (ground arith)

pub apply-after :
    (addr : Address) (r : Reading) (seen : Touch) (m : BalanceMap)
    → Fits seen
    → apply addr r seen m ≡ some (after (get addr m) addr r seen m, reported (get addr m) r seen)
unfolding apply get
apply-after addr r seen m h = apply_to_lem (Table.get addr m.inner) addr r seen m h refl

pub cursor-after :
    (known : Option Entry) (addr : Address) (r : Reading) (seen : Touch) (m : BalanceMap)
    → (after known addr r seen m).cursor ≡ m.cursor
unfolding after
cursor-after known addr r seen m = ground arith

pub get-after :
    (known : Option Entry) (addr j : Address) (r : Reading) (seen : Touch) (m : BalanceMap)
    → get j (after known addr r seen m)
      ≡ (if addr == j then if is_zero r then none else some (refreshed known r seen) else get j m)
unfolding after get
get-after known addr j r seen m = ground (
  arith,
  Table.get-remove addr j m.inner,
  Table.get-insert addr j (refreshed known r seen) m.inner,
)

-- A reading whose blocks fit is applied without a panic. The address then has no record if both
-- balances read are zero, and else the refreshed one; no other address and not the cursor changes;
-- and the report says which of the cases it was.
pub apply_lem :
    (addr : Address) (r : Reading) (seen : Touch) (m : BalanceMap)
    → Fits seen
    → (m' : BalanceMap) × (apply addr r seen m ≡ some (m', reported (get addr m) r seen))
      × (m'.cursor ≡ m.cursor)
      × ((j : Address)
          → get j m' ≡ (
              if addr == j
              then if is_zero r then none else some (refreshed (get addr m) r seen)
              else get j m))
apply_lem addr r seen m h = (
  after (get addr m) addr r seen m,
  apply-after addr r seen m h,
  cursor-after (get addr m) addr r seen m,
  λ j. get-after (get addr m) addr j r seen m,
)
