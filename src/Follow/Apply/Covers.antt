-- ===== src/Follow/Apply/Covers.antt =====
-- What a pass tells the PIR side is right about every holder, also when an address comes back in
-- the middle of the pass.
use poulpy_eth_pir_demo.Base.{
  true, false, Option, none, some, [], ◌∷◌, ◌≡◌, ◌⊎◌, refl, sym, arith, Bool-cases, Option-cases,
  inl, inr, subst,
}
use poulpy_eth_pir_demo.Base.Equality.{◌==◌, byte_list_eq, bytes_eq_iff, eq_self}
use poulpy_eth_pir_demo.Base.Table
use poulpy_eth_pir_demo.Base.Table.{Table, Unique, or_default}
use poulpy_eth_pir_demo.Tokens.{Address}
use poulpy_eth_pir_demo.Record.{Entry}
use poulpy_eth_pir_demo.Balances.{Reading, BalanceMap, Applied}
use poulpy_eth_pir_demo.Balances
use poulpy_eth_pir_demo.Balances.Inversion.{apply-inversion}
use poulpy_eth_pir_demo.Balances.Invariant.{HoldsBalances, after-HoldsBalances}
use poulpy_eth_pir_demo.Balances.Apply.{same, reported, refreshed, get-after}
use poulpy_eth_pir_demo.Follow.Apply.Next
use poulpy_eth_pir_demo.Follow.Apply.Next.{zero-refreshed, map-next, Unique-next}
use poulpy_eth_pir_demo.Follow.Apply.Recorded.{
  get-record_apply_result, get-record_current_entry, map-record_apply_result,
}
use poulpy_eth_pir_demo.Chain.Touch.{Touch, no_touch}
use poulpy_eth_pir_demo.Chain.Events.{Touched}
use poulpy_eth_pir_demo.Publish.Current.{
  PirSnapshot, UpdateBatch, told, record_batch, get-record_batch,
}
use poulpy_eth_pir_demo.Follow.Apply.{Outputs, apply_reading, apply_readings}

-- At every address the copy will agree with the map once it has been told, but for one that the map
-- does not hold and of which nothing is told.
pub record Covers (copy : PirSnapshot) (m : BalanceMap) (changed : UpdateBatch) : Type 0 where
  pub agrees :
      (j : Address)
      → (told (Table.get j changed) (Table.get j copy) ≡ Balances.get j m)
        ⊎ (Table.get j changed ≡ none) × (Balances.get j m ≡ none)
  pub once : Unique changed
  pub balances : HoldsBalances m

-- The copy has the map's record of every holder.
abbrev pub Serves : PirSnapshot → BalanceMap → Type 0
Serves copy m = (j : Address) (e : Entry) → Balances.get j m ≡ some e → Table.get j copy ≡ some e

same_eq : (e f : Entry) → same e f ≡ true → e ≡ f
same_eq e f h = ground arith

module _ (copy : PirSnapshot) (seen : Touch) (addr : Address) (r : Reading) (o : Outputs)
    (covers : Covers copy o.map o.changed) where
  abbrev known : Option Entry
  known = Next.known seen addr r o

  abbrev applied : Outputs
  applied = Next.applied seen addr r o

  abbrev reported_pass : Outputs
  reported_pass = Next.reported_pass seen addr r o

  abbrev next : Outputs
  next = Next.next seen addr r o

  abbrev Agrees : Address → Type 0
  Agrees j =
      (told (Table.get j next.changed) (Table.get j copy) ≡ Balances.get j next.map)
      ⊎ (Table.get j next.changed ≡ none) × (Balances.get j next.map ≡ none)

  Agrees-elsewhere : (j : Address) → (addr == j) ≡ false → Agrees j
  Agrees-elsewhere j other = ground (
    arith,
    map-next seen addr r o,
    get-after known addr j r seen o.map,
    get-record_current_entry addr j reported_pass,
    get-record_apply_result addr j (reported known r seen) applied,
    covers.agrees j,
  )

  Agrees-here : (before : Option Entry) → known ≡ before → Agrees addr
  Agrees-here none missing =
      unfold Table.contains_key in
      ground (
        arith,
        missing,
        map-next seen addr r o,
        get-after known addr addr r seen o.map,
        get-record_current_entry addr addr reported_pass,
        get-record_apply_result addr addr (reported known r seen) applied,
        map-record_apply_result addr (reported known r seen) applied,
        covers.agrees addr,
        eq_self addr,
        zero-refreshed known r seen,
      )
  Agrees-here (some e) held =
      unfold Table.contains_key in
      ground (
        arith,
        held,
        map-next seen addr r o,
        get-after known addr addr r seen o.map,
        get-record_current_entry addr addr reported_pass,
        get-record_apply_result addr addr (reported known r seen) applied,
        map-record_apply_result addr (reported known r seen) applied,
        covers.agrees addr,
        eq_self addr,
        zero-refreshed known r seen,
        same_eq e (refreshed known r seen),
      )

  Agrees-next : (j : Address) → Agrees j
  Agrees-next j = elim (Bool-cases (addr == j)) [
    | inl here ↦ rw (← (bytes_eq_iff addr j).0 here) (Agrees-here known refl)
    | inr other ↦ Agrees-elsewhere j other
  ]

  Covers-next : Covers copy next.map next.changed
  Covers-next = record {
    agrees = Agrees-next;
    once = Unique-next seen addr r o covers.once;
    balances =
        rw (map-next seen addr r o) (after-HoldsBalances known addr r seen o.map covers.balances);
  }

pub apply_reading-inversion :
    (seen : Touch) (addr : Address) (r : Reading) (o o' : Outputs)
    → apply_reading seen addr r o ≡ some o'
    → o' ≡ Next.next seen addr r o
unfolding apply_reading
apply_reading-inversion seen addr r o o' h =
    elim (Option-cases (Balances.apply addr r seen o.map)) [
      | inl panicked ↦ ground arith
      | inr (x, done) ↦ ground (arith, apply-inversion addr r seen o.map x done)
    ]

-- Readings that were applied, of whatever addresses, keep what has to be told right.
pub apply_readings-Covers :
    (copy : PirSnapshot) (touched : Touched) (readings : Table Address Reading) (o o' : Outputs)
    → Covers copy o.map o.changed
    → apply_readings touched readings o ≡ some o'
    → Covers copy o'.map o'.changed
unfolding apply_readings
apply_readings-Covers copy touched [] o o' c h =
    let same_pass : o ≡ o' = ground arith in
    subst (λ (p : Outputs). Covers copy p.map p.changed) same_pass c
apply_readings-Covers copy touched ((addr, r) ∷ rest) o o' c h =
    let seen : Touch = or_default no_touch (Table.get addr touched) in
    elim (Option-cases (apply_reading seen addr r o)) [
      | inl panicked ↦ ground arith
      | inr (o₁, done) ↦
          let step : Covers copy o₁.map o₁.changed =
            subst (λ (p : Outputs). Covers copy p.map p.changed)
              (sym (apply_reading-inversion seen addr r o o₁ done))
              (Covers-next copy seen addr r o c) in
          apply_readings-Covers copy touched rest o₁ o' step (ground arith)
    ]

-- A copy that serves the map covers it with nothing told, and one that covers it serves it once it
-- has absorbed what is told.
pub Serves-Covers :
    (copy : PirSnapshot) (m : BalanceMap) → HoldsBalances m → Serves copy m → Covers copy m []
unfolding Table.get
Serves-Covers copy m h serves = record {
  agrees = λ j. elim (Option-cases (Balances.get j m)) [
    | inl gone ↦ inr (refl, gone)
    | inr (e, held) ↦ inl (cc (serves j e held, held))
  ];
  once = tt;
  balances = h;
}

pub Covers-Serves :
    (copy : PirSnapshot) (m : BalanceMap) (changed : UpdateBatch)
    → Covers copy m changed
    → Serves (record_batch changed copy) m
Covers-Serves copy m changed c j e held =
    ground (arith, c.agrees j, get-record_batch changed copy j c.once)
