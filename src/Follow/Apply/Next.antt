-- ===== src/Follow/Apply/Next.antt =====
-- The pass after one reading that is applied without a panic.
use poulpy_eth_pir_demo.Base.{
  true, false, Option, none, some, ◌≡◌, refl, ap, ◌∙◌, if◌then◌else◌, arith,
}
use poulpy_eth_pir_demo.Base.Equality.{◌==◌, byte_list_eq, eq_self}
use poulpy_eth_pir_demo.Base.Table
use poulpy_eth_pir_demo.Base.Table.{Table, Unique, or_default, is_some}
use poulpy_eth_pir_demo.Tokens.{Address}
use poulpy_eth_pir_demo.Record.{Entry, is_zero}
use poulpy_eth_pir_demo.Balances.{Reading, Applied}
use poulpy_eth_pir_demo.Balances
use poulpy_eth_pir_demo.Follow.Apply.Recorded.{
  counted, get-record_apply_result, contains-record_apply_result, get-record_current_entry,
  map-record_apply_result, map-record_current_entry, inserted-record_current_entry,
  Unique-record_apply_result, Unique-record_current_entry,
}
use poulpy_eth_pir_demo.Balances.Apply.{Fits, after, reported, refreshed, apply-after, get-after}
use poulpy_eth_pir_demo.Chain.Touch.{Touch}
use poulpy_eth_pir_demo.Follow.Apply.{
  Outputs, record_apply_result, record_current_entry, apply_reading,
}

pub zero-refreshed :
    (known : Option Entry) (r : Reading) (seen : Touch)
    → is_zero (refreshed known r seen) ≡ Balances.is_zero r
unfolding is_zero Balances.is_zero
zero-refreshed known r seen = refl

module _ (seen : Touch) (addr : Address) (r : Reading) (o : Outputs) where
  abbrev pub known : Option Entry
  known = Balances.get addr o.map

  -- The pass once the reading is applied, and once it is recorded.
  abbrev pub applied : Outputs
  applied = record o { map = after known addr r seen o.map }

  abbrev pub reported_pass : Outputs
  reported_pass = record_apply_result (reported known r seen) addr applied

  abbrev pub next : Outputs
  next = record_current_entry addr reported_pass

  pub map-next : next.map ≡ after known addr r seen o.map
  map-next =
      map-record_current_entry addr reported_pass
      ∙ map-record_apply_result addr (reported known r seen) applied

  -- Whether the address counts as put in by this pass.
  pub inserted_next :
      (j : Address)
      → Table.contains_key j next.inserted ≡ (
          if addr == j
          then counted (reported known r seen) (Table.contains_key j o.inserted)
          else Table.contains_key j o.inserted)
  inserted_next j =
      ap (Table.contains_key j) (inserted-record_current_entry addr reported_pass)
      ∙ contains-record_apply_result addr j (reported known r seen) applied

  pub apply_reading-next : Fits seen → apply_reading seen addr r o ≡ some next
  unfolding apply_reading
  apply_reading-next fits = rw (apply-after addr r seen o.map fits, apply_reading)

  -- What the pass records of the address itself, where it is known to hold a record.
  pub removed_here :
      (e : Entry)
      → known ≡ some e
      → Balances.is_zero r ≡ true
      → (Table.get addr next.changed
          ≡ (if Table.contains_key addr o.inserted then none else some (refreshed (some e) r seen)))
        × (Table.contains_key addr next.inserted ≡ false)
        × (Balances.get addr next.map ≡ none)
  removed_here e held zero = (
    ground (
      arith,
      held,
      map-record_apply_result addr (reported known r seen) applied,
      get-after known addr addr r seen o.map,
      get-record_current_entry addr addr reported_pass,
      get-record_apply_result addr addr (reported known r seen) applied,
      eq_self addr,
    ),
    ground (arith, held, inserted_next addr, eq_self addr),
    ground (arith, map-next, get-after known addr addr r seen o.map, eq_self addr),
  )

  pub inserted_here :
      known ≡ none
      → Balances.is_zero r ≡ false
      → (Table.contains_key addr next.inserted ≡ true)
        × (Balances.get addr next.map ≡ some (refreshed none r seen))
  inserted_here missing nonzero = (
    ground (arith, missing, inserted_next addr, eq_self addr),
    ground (arith, map-next, get-after known addr addr r seen o.map, eq_self addr),
  )

  pub Unique-next : Unique o.changed → Unique next.changed
  Unique-next u =
      Unique-record_current_entry addr reported_pass
        (Unique-record_apply_result addr (reported known r seen) applied u)
