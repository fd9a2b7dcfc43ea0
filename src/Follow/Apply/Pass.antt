-- ===== src/Follow/Apply/Pass.antt =====
-- The readings of a whole range, and what the PIR side's copy holds once it has been told.
use poulpy_eth_pir_demo.Base.{false, none, some, [], ◌∷◌, ◌≡◌, refl, sym, ◌∙◌, arith, All}
use poulpy_eth_pir_demo.Base.Equality.{◌==◌, byte_list_eq, bytes_eq_iff}
use poulpy_eth_pir_demo.Base.Table
use poulpy_eth_pir_demo.Base.Table.{Table, Unique, or_default}
use poulpy_eth_pir_demo.Tokens.{Address}
use poulpy_eth_pir_demo.Balances.{Reading}
use poulpy_eth_pir_demo.Balances
use poulpy_eth_pir_demo.Balances.Apply.{Fits, get-after}
use poulpy_eth_pir_demo.Balances.Invariant.{HoldsBalances}
use poulpy_eth_pir_demo.Chain.Touch.{Touch, no_touch}
use poulpy_eth_pir_demo.Chain.Events.{Touched}
use poulpy_eth_pir_demo.Publish.Current.{PirSnapshot, record_batch, get-record_batch}
use poulpy_eth_pir_demo.Follow.Apply.{Outputs, apply_reading, apply_readings}
use poulpy_eth_pir_demo.Follow.Apply.Mirror.{Tracks, apply_reading-Tracks}

-- Every block collected fits the record's 32 bits.
abbrev pub AllFit : Touched → Type 0
AllFit touched = (j : Address) → Fits (or_default no_touch (Table.get j touched))

-- No address that the copy holds and the map has dropped comes back with a balance.
abbrev pub NoneComesBack : PirSnapshot → Outputs → Table Address Reading → Type 0
NoneComesBack copy o = All (λ (p : Address × Reading).
    Balances.get p.0 o.map ≡ none → Balances.is_zero p.1 ≡ false → Table.get p.0 copy ≡ none)

apply_readings_step :
    (touched : Touched) (addr : Address) (r : Reading) (rest : Table Address Reading)
    (o o' : Outputs)
    → apply_reading (or_default no_touch (Table.get addr touched)) addr r o ≡ some o'
    → apply_readings touched ((addr, r) ∷ rest) o ≡ apply_readings touched rest o'
unfolding apply_readings
apply_readings_step touched addr r rest o o' h = ground arith

module _ (copy : PirSnapshot) where
  -- A reading of one address leaves what the map holds of those that are still to be read.
  NoneComesBack-next :
      (addr : Address) (o o' : Outputs) (rest : Table Address Reading)
      → Table.get addr rest ≡ none
      → ((j : Address) → (j == addr) ≡ false → Balances.get j o'.map ≡ Balances.get j o.map)
      → NoneComesBack copy o rest
      → NoneComesBack copy o' rest
  unfolding Table.get
  NoneComesBack-next addr o o' [] gone same h = tt
  NoneComesBack-next addr o o' ((j, q) ∷ rest) gone same h =
      let other : (j == addr) ≡ false = ground arith in
      let later : Table.get addr rest ≡ none = ground arith in
      (
        λ missing nonzero. h.0 (sym (same j other) ∙ missing) nonzero,
        NoneComesBack-next addr o o' rest later same h.1,
      )

  -- Let a pass be in step with the PIR side's copy: the copy, once it has absorbed the changes
  -- recorded, agrees with the map. Readings that name no address twice, with blocks that fit 32 bits,
  -- and none for an address that the copy holds, the map has dropped and that has a balance again,
  -- are applied without a panic and leave the pass in step.
  pub apply_readings-Tracks :
      (touched : Touched) (readings : Table Address Reading) (o : Outputs)
      → AllFit touched
      → Unique readings
      → NoneComesBack copy o readings
      → Tracks copy o
      → (o' : Outputs) × (apply_readings touched readings o ≡ some o') × Tracks copy o'
  apply_readings-Tracks touched [] o fits u back tracks = (o, unfold apply_readings in refl, tracks)
  apply_readings-Tracks touched ((addr, r) ∷ rest) o fits u back tracks =
      let seen : Touch = or_default no_touch (Table.get addr touched) in
      let (o', applied, tracks', map') =
        apply_reading-Tracks copy seen addr r o (fits addr) tracks back.0 in
      let same : (j : Address)
          → (j == addr) ≡ false
          → Balances.get j o'.map ≡ Balances.get j o.map =
        λ j other. ground (
          arith,
          map',
          get-after (Balances.get addr o.map) addr j r seen o.map,
          bytes_eq_iff addr j,
          bytes_eq_iff j addr,
        ) in
      let (end, done, tracks'') =
        apply_readings-Tracks touched rest o' fits u.1
          (NoneComesBack-next addr o o' rest u.0 same back.1) tracks' in
      (end, apply_readings_step touched addr r rest o o' applied ∙ done, tracks'')

  -- A copy that agrees with the map has nothing that the map has dropped.
  NoneComesBack-agrees :
      (o : Outputs) (readings : Table Address Reading)
      → ((j : Address) → Table.get j copy ≡ Balances.get j o.map)
      → NoneComesBack copy o readings
  NoneComesBack-agrees o [] agree = tt
  NoneComesBack-agrees o ((addr, r) ∷ rest) agree =
      (λ missing nonzero. agree addr ∙ missing, NoneComesBack-agrees o rest agree)

  -- Let the PIR side's copy agree with the map when a pass starts, with nothing recorded yet,
  -- let the map have no address twice and no record without a balance, and let the blocks fit 32
  -- bits. Then one range's readings, no address twice, are applied without a panic, and once the
  -- copy has absorbed the changes recorded it agrees with the new map.
  pub record_batch-apply_readings :
      (touched : Touched) (readings : Table Address Reading) (o : Outputs)
      → AllFit touched
      → Unique readings
      → HoldsBalances o.map
      → o.changed ≡ []
      → o.inserted ≡ []
      → ((j : Address) → Table.get j copy ≡ Balances.get j o.map)
      → (o' : Outputs) × (apply_readings touched readings o ≡ some o')
        × ((j : Address) → Table.get j (record_batch o'.changed copy) ≡ Balances.get j o'.map)
  record_batch-apply_readings touched readings o fits u holds none_changed none_inserted agree =
      let start : Tracks copy o = record {
        agrees = λ j. rw none_changed (unfold Table.get in agree j);
        fresh = λ j h. unfold Table.contains_key Table.get in cc (rw none_inserted at h);
        once = rw none_changed tt;
        balances = holds;
      } in
      let (o', done, tracks) =
        apply_readings-Tracks touched readings o fits u (NoneComesBack-agrees o readings agree)
          start in
      (o', done, λ j. get-record_batch o'.changed copy j tracks.once ∙ tracks.agrees j)
