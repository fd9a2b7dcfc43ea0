-- ===== src/Follow/Apply/Recorded.antt =====
-- What each kind of report does to the changes and the insertions of a pass, address by address.
use poulpy_eth_pir_demo.Base.{
  Bool, true, false, ◌&&◌, Option, none, some, ◌≡◌, refl, Option-cases, inl, inr, if◌then◌else◌,
  arith,
}
use poulpy_eth_pir_demo.Base.Equality.{◌==◌, byte_list_eq, bytes_eq_iff}
use poulpy_eth_pir_demo.Base.Table
use poulpy_eth_pir_demo.Base.Table.{Table, Unique, is_some}
use poulpy_eth_pir_demo.Tokens.{Address}
use poulpy_eth_pir_demo.Record.{Entry, no_entry}
use poulpy_eth_pir_demo.Balances.{Applied, inserted, updated, removed, unchanged, skipped_new_zero}
use poulpy_eth_pir_demo.Balances
use poulpy_eth_pir_demo.Follow.Apply.{
  Outputs, record_inserted, record_updated, record_removed, record_apply_result,
  record_current_entry,
}

-- What is recorded as changed of the reported address itself.
abbrev pub recorded : Applied → Bool → Option Entry → Option Entry
recorded inserted in_pass known = some no_entry
recorded updated in_pass known = some no_entry
recorded (removed e) in_pass known = if in_pass then none else some e
recorded unchanged in_pass known = known
recorded skipped_new_zero in_pass known = known

-- Whether the reported address counts as put in by this pass.
abbrev pub counted : Applied → Bool → Bool
counted inserted in_pass = true
counted (removed e) in_pass = false
counted _ in_pass = in_pass

module _ (addr j : Address) where
  pub get-record_apply_result :
      (a : Applied) (o : Outputs)
      → Table.get j (record_apply_result a addr o).changed ≡ (
          if addr == j
          then recorded a (Table.contains_key addr o.inserted) (Table.get j o.changed)
          else Table.get j o.changed)
  unfolding record_apply_result record_inserted record_updated record_removed
  get-record_apply_result inserted o = Table.get-insert addr j no_entry o.changed
  get-record_apply_result updated o = Table.get-insert addr j no_entry o.changed
  get-record_apply_result (removed e) o =
      ground (arith, Table.get-insert addr j e o.changed, Table.get-remove addr j o.changed)
  get-record_apply_result unchanged o = ground arith
  get-record_apply_result skipped_new_zero o = ground arith

  pub contains-record_apply_result :
      (a : Applied) (o : Outputs)
      → Table.contains_key j (record_apply_result a addr o).inserted ≡ (
          if addr == j
          then counted a (Table.contains_key j o.inserted)
          else Table.contains_key j o.inserted)
  unfolding record_apply_result record_inserted record_updated record_removed Table.contains_key
  contains-record_apply_result inserted o = ground (arith, Table.get-insert addr j tt o.inserted)
  contains-record_apply_result updated o = ground arith
  contains-record_apply_result (removed e) o =
      ground (arith, Table.get-remove addr j o.inserted, bytes_eq_iff addr j)
  contains-record_apply_result unchanged o = ground arith
  contains-record_apply_result skipped_new_zero o = ground arith

  -- The current entry takes the place of what was recorded, where the address stays in the map.
  pub get-record_current_entry :
      (o : Outputs)
      → Table.get j (record_current_entry addr o).changed ≡ (
          if addr == j && (is_some (Balances.get addr o.map) && Table.contains_key addr o.changed)
          then Balances.get addr o.map
          else Table.get j o.changed)
  unfolding record_current_entry
  get-record_current_entry o = elim (Option-cases (Balances.get addr o.map)) [
    | inl gone ↦ ground arith
    | inr (e, here) ↦ ground (arith, Table.get-insert addr j e o.changed)
  ]

module _ (addr : Address) where
  pub map-record_apply_result :
      (a : Applied) (o : Outputs) → (record_apply_result a addr o).map ≡ o.map
  unfolding record_apply_result record_inserted record_updated record_removed
  map-record_apply_result inserted o = refl
  map-record_apply_result updated o = refl
  map-record_apply_result (removed e) o = ground arith
  map-record_apply_result unchanged o = refl
  map-record_apply_result skipped_new_zero o = refl

  pub map-record_current_entry : (o : Outputs) → (record_current_entry addr o).map ≡ o.map
  unfolding record_current_entry
  map-record_current_entry o = ground arith

  pub inserted-record_current_entry :
      (o : Outputs) → (record_current_entry addr o).inserted ≡ o.inserted
  unfolding record_current_entry
  inserted-record_current_entry o = ground arith

  pub Unique-record_apply_result :
      (a : Applied) (o : Outputs) → Unique o.changed → Unique (record_apply_result a addr o).changed
  unfolding record_apply_result record_inserted record_updated record_removed
  Unique-record_apply_result inserted o u = Table.Unique-insert addr no_entry o.changed u
  Unique-record_apply_result updated o u = Table.Unique-insert addr no_entry o.changed u
  Unique-record_apply_result (removed e) o u =
      ground (arith, Table.Unique-insert addr e o.changed u, Table.Unique-remove addr o.changed u)
  Unique-record_apply_result unchanged o u = u
  Unique-record_apply_result skipped_new_zero o u = u

  pub Unique-record_current_entry :
      (o : Outputs) → Unique o.changed → Unique (record_current_entry addr o).changed
  unfolding record_current_entry
  Unique-record_current_entry o u = elim (Option-cases (Balances.get addr o.map)) [
    | inl gone ↦ ground arith
    | inr (e, here) ↦ ground (arith, Table.Unique-insert addr e o.changed u)
  ]
