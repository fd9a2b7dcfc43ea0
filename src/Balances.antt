-- ===== src/Balances.antt =====
-- src/map/types.rs and src/map/apply.rs: the balance map, the authoritative plaintext table.
pub mod Apply
pub mod Invariant
pub mod Inversion
use poulpy_eth_pir_demo.Base.{
  ℕ, ◌-◌, ◌^◌, Bool, true, false, ◌&&◌, ◌||◌, Option, none, some, List, [], ◌∷◌, length, ltb,
  nat_eq, if◌then◌else◌,
}
use poulpy_eth_pir_demo.Base.Equality.{byte_list_eq}
use poulpy_eth_pir_demo.Base.Table
use poulpy_eth_pir_demo.Base.Table.{Table, is_some}
use poulpy_eth_pir_demo.Tokens.{Address}
use poulpy_eth_pir_demo.Record.{Entry}
use poulpy_eth_pir_demo.Record
use poulpy_eth_pir_demo.Chain.Touch.{Touch}

pub record Reading : Type 0 where
  pub usdt : ℕ
  pub usdc : ℕ

unfoldable pub is_zero : Reading → Bool
is_zero r = nat_eq r.usdt 0 && nat_eq r.usdc 0

pub record BalanceMap : Type 0 where
  pub inner : Table Address Entry
  pub cursor : ℕ

unfoldable pub new : ℕ → BalanceMap
new cursor = record { inner = []; cursor = cursor }

unfoldable pub get : Address → BalanceMap → Option Entry
get addr m = Table.get addr m.inner

unfoldable pub len : BalanceMap → ℕ
len m = length m.inner

pub data Applied : Type 0 where
  inserted updated unchanged skipped_new_zero : Applied
  removed : Entry → Applied

-- `u32::try_from(b).expect(..)`: `none` is the panic.
unfoldable pub block32 : ℕ → Option ℕ
block32 b = if ltb b (2 ^ 32) then some b else none

-- A panic ends the program, so what follows it is not run.
infixl 5 ◌>>=◌
abbrev pub ◌>>=◌ {ℓ κ} : {A : Type ℓ} {B : Type κ} → Option A → (A → Option B) → Option B
none >>= f = none
some a >>= f = f a

-- `block.map(block32).unwrap_or(0)`
unfoldable pub first_block : Option ℕ → Option ℕ
first_block none = some 0
first_block (some b) = block32 b

unfoldable pub insert_new : Address → Reading → Touch → BalanceMap → Option (BalanceMap × Applied)
insert_new addr r seen m = do
  usdt_block ← first_block seen.usdt
  usdc_block ← first_block seen.usdc
  let e : Entry = record {
    usdt = r.usdt;
    usdt_block = usdt_block;
    usdc = r.usdc;
    usdc_block = usdc_block;
  }
  some (record m { inner = Table.insert addr e m.inner }, inserted)

-- The slot's new value, and whether it changed.
unfoldable pub update_block : ℕ → Option ℕ → Option (ℕ × Bool)
update_block slot none = some (slot, false)
update_block slot (some b) = do
  block ← block32 b
  if nat_eq slot block then some (slot, false) else some (block, true)

unfoldable pub update_balance : ℕ → ℕ → ℕ × Bool
update_balance slot value = if nat_eq slot value then (slot, false) else (value, true)

unfoldable pub stamp_seen_blocks : Entry → Touch → Option (Entry × Bool)
stamp_seen_blocks e seen = do
  (usdt_block, a) ← update_block e.usdt_block seen.usdt
  (usdc_block, b) ← update_block e.usdc_block seen.usdc
  some (record e { usdt_block = usdt_block; usdc_block = usdc_block }, a || b)

unfoldable pub write_balances : Entry → Reading → Entry × Bool
write_balances e r =
    let (usdt, a) = update_balance e.usdt r.usdt in
    let (usdc, b) = update_balance e.usdc r.usdc in (record e { usdt = usdt; usdc = usdc }, a || b)

unfoldable pub apply_existing : Entry → Reading → Touch → Option (Entry × Applied)
apply_existing e r seen = do
  (stamped, a) ← stamp_seen_blocks e seen
  let w = write_balances stamped r
  some (w.0, if a || w.1 then updated else unchanged)

unfoldable pub apply_to :
    Option Entry → Address → Reading → Touch → BalanceMap → Option (BalanceMap × Applied)
apply_to (some e) addr r seen m = do
  (e', applied) ← apply_existing e r seen
  if Record.is_zero e'
      then some (record m { inner = Table.remove addr m.inner }, removed e')
      else some (record m { inner = Table.insert addr e' m.inner }, applied)
apply_to none addr r seen m =
    if is_zero r then some (m, skipped_new_zero) else insert_new addr r seen m

unfoldable pub apply : Address → Reading → Touch → BalanceMap → Option (BalanceMap × Applied)
apply addr r seen m = apply_to (Table.get addr m.inner) addr r seen m

unfoldable pub remove_if_zero : Address → BalanceMap → BalanceMap
remove_if_zero addr m =
    if elim (Table.get addr m.inner) [ none ↦ false | some e ↦ Record.is_zero e ]
    then record m { inner = Table.remove addr m.inner }
    else m

unfoldable pub prune_each : List Address → BalanceMap → BalanceMap
prune_each [] m = m
prune_each (addr ∷ rest) m = prune_each rest (remove_if_zero addr m)

unfoldable pub prune_zero : List Address → BalanceMap → BalanceMap × ℕ
prune_zero candidates m = let m' = prune_each candidates m in (m', length m.inner - length m'.inner)
