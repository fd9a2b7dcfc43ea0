-- ===== src/Follow/Apply/Mirror.antt =====
-- What a pass tells the PIR side brings its copy in line with the map.
use poulpy_eth_pir_demo.Base.{
  true, false, Option, none, some, ◌≡◌, refl, arith, Bool-cases, inl, inr,
}
use poulpy_eth_pir_demo.Base.Equality.{◌==◌, byte_list_eq, bytes_eq_iff, eq_self}
use poulpy_eth_pir_demo.Base.Table
use poulpy_eth_pir_demo.Base.Table.{Table, Unique, or_default, is_some}
use poulpy_eth_pir_demo.Tokens.{Address}
use poulpy_eth_pir_demo.Record.{Entry}
use poulpy_eth_pir_demo.Balances.{Reading, Applied}
use poulpy_eth_pir_demo.Balances
use poulpy_eth_pir_demo.Follow.Apply.Next
use poulpy_eth_pir_demo.Follow.Apply.Next.{
  zero-refreshed, map-next, inserted_next, apply_reading-next,
}
use poulpy_eth_pir_demo.Follow.Apply.Recorded.{
  counted, get-record_apply_result, get-record_current_entry, map-record_apply_result,
  Unique-record_apply_result, Unique-record_current_entry,
}
use poulpy_eth_pir_demo.Balances.Apply.{same, Fits, after, reported, refreshed, get-after}
use poulpy_eth_pir_demo.Balances.Invariant.{HoldsBalances, after-HoldsBalances}
use poulpy_eth_pir_demo.Chain.Touch.{Touch}
use poulpy_eth_pir_demo.Publish.Current.{PirSnapshot, told}
use poulpy_eth_pir_demo.Follow.Apply.{Outputs, apply_reading}

-- A pass that started in line with the PIR side's copy: what it has to tell makes the copy agree
-- with the map, and what it put in was not in the copy before.
pub record Tracks (copy : PirSnapshot) (o : Outputs) : Type 0 where
  pub agrees :
      (j : Address) → told (Table.get j o.changed) (Table.get j copy) ≡ Balances.get j o.map
  pub fresh : (j : Address) → Table.contains_key j o.inserted ≡ true → Table.get j copy ≡ none
  pub once : Unique o.changed
  pub balances : HoldsBalances o.map

same_eq : (e f : Entry) → same e f ≡ true → e ≡ f
same_eq e f h = ground arith

module _ (copy : PirSnapshot) (seen : Touch) (addr : Address) (r : Reading) (o : Outputs)
    (tracks : Tracks copy o)
    (new_to_copy : Balances.get addr o.map ≡ none
      → Balances.is_zero r ≡ false
      → Table.get addr copy ≡ none) where
  abbrev known : Option Entry
  known = Next.known seen addr r o

  abbrev applied : Outputs
  applied = Next.applied seen addr r o

  abbrev reported_pass : Outputs
  reported_pass = Next.reported_pass seen addr r o

  abbrev next : Outputs
  next = Next.next seen addr r o

  -- At another address nothing changes.
  agrees_elsewhere :
      (j : Address)
      → (addr == j) ≡ false
      → told (Table.get j next.changed) (Table.get j copy) ≡ Balances.get j next.map
  agrees_elsewhere j other = ground (
    arith,
    map-next seen addr r o,
    get-after known addr j r seen o.map,
    get-record_current_entry addr j reported_pass,
    get-record_apply_result addr j (reported known r seen) applied,
    tracks.agrees j,
  )

  -- What is recorded of the address itself, by what was known of it.
  agrees_here :
      (before : Option Entry)
      → known ≡ before
      → told (Table.get addr next.changed) (Table.get addr copy) ≡ Balances.get addr next.map
  agrees_here none missing =
      unfold Table.contains_key in
      ground (
        arith,
        missing,
        map-next seen addr r o,
        get-after known addr addr r seen o.map,
        get-record_current_entry addr addr reported_pass,
        get-record_apply_result addr addr (reported known r seen) applied,
        map-record_apply_result addr (reported known r seen) applied,
        tracks.agrees addr,
        eq_self addr,
        zero-refreshed known r seen,
      )
  agrees_here (some e) held =
      unfold Table.contains_key in
      ground (
        arith,
        held,
        map-next seen addr r o,
        get-after known addr addr r seen o.map,
        get-record_current_entry addr addr reported_pass,
        get-record_apply_result addr addr (reported known r seen) applied,
        map-record_apply_result addr (reported known r seen) applied,
        tracks.agrees addr,
        tracks.fresh addr,
        eq_self addr,
        zero-refreshed known r seen,
        same_eq e (refreshed known r seen),
      )

  agrees_next :
      (j : Address) → told (Table.get j next.changed) (Table.get j copy) ≡ Balances.get j next.map
  agrees_next j = elim (Bool-cases (addr == j)) [
    | inl here ↦ rw (← (bytes_eq_iff addr j).0 here) (agrees_here known refl)
    | inr other ↦ agrees_elsewhere j other
  ]

  counted-fresh :
      (before : Option Entry)
      → known ≡ before
      → counted (reported before r seen) (Table.contains_key addr o.inserted) ≡ true
      → Table.get addr copy ≡ none
  counted-fresh none missing h = ground (arith, tracks.fresh addr, new_to_copy)
  counted-fresh (some e) held h = ground (arith, tracks.fresh addr)

  fresh_next : (j : Address) → Table.contains_key j next.inserted ≡ true → Table.get j copy ≡ none
  fresh_next j h = ground (
    arith,
    inserted_next seen addr r o j,
    bytes_eq_iff addr j,
    counted-fresh known refl,
    tracks.fresh j,
  )

  Tracks-next : Tracks copy next
  Tracks-next = record {
    agrees = agrees_next;
    fresh = fresh_next;
    once =
        Unique-record_current_entry addr reported_pass
          (Unique-record_apply_result addr (reported known r seen) applied tracks.once);
    balances =
        rw (map-next seen addr r o) (after-HoldsBalances known addr r seen o.map tracks.balances);
  }

-- One reading is applied without a panic, the map is what the reading makes of it, and the copy
-- still comes into line with it.
pub apply_reading-Tracks :
    (copy : PirSnapshot) (seen : Touch) (addr : Address) (r : Reading) (o : Outputs)
    → Fits seen
    → Tracks copy o
    → (Balances.get addr o.map ≡ none → Balances.is_zero r ≡ false → Table.get addr copy ≡ none)
    → (o' : Outputs) × (apply_reading seen addr r o ≡ some o')
      × Tracks copy o'
      × (o'.map ≡ after (Balances.get addr o.map) addr r seen o.map)
apply_reading-Tracks copy seen addr r o fits tracks fresh = (
  Next.next seen addr r o,
  apply_reading-next seen addr r o fits,
  Tracks-next copy seen addr r o tracks fresh,
  map-next seen addr r o,
)
