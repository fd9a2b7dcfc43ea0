-- ===== src/Follow/Apply/Refilled.antt =====
-- An address that one pass sees drained, refilled and drained again keeps its old balance on the
-- PIR side: the second draining takes back what the pass had to tell about it.
use poulpy_eth_pir_demo.Base.{true, false, none, some, ◌≡◌, ◌∙◌, arith}
use poulpy_eth_pir_demo.Base.Equality.{byte_list_eq}
use poulpy_eth_pir_demo.Base.Table
use poulpy_eth_pir_demo.Tokens.{Address}
use poulpy_eth_pir_demo.Record.{Entry}
use poulpy_eth_pir_demo.Balances.{Reading}
use poulpy_eth_pir_demo.Balances
use poulpy_eth_pir_demo.Balances.Apply.{Fits, refreshed}
use poulpy_eth_pir_demo.Chain.Touch.{Touch}
use poulpy_eth_pir_demo.Publish.Current.{PirSnapshot, record_batch, get-record_batch}
use poulpy_eth_pir_demo.Follow.Apply.{Outputs, apply_reading}
use poulpy_eth_pir_demo.Follow.Apply.Next.{
  next, Unique-next, removed_here, inserted_here, apply_reading-next,
}
use poulpy_eth_pir_demo.Follow.Apply.Mirror.{Tracks}

-- Let a pass be in step with the PIR side's copy, and an address be held by both with one record. If
-- the pass then reads no balance for it, a balance, and no balance again, with blocks that fit 32
-- bits, none of the readings panics, and at the end the map does not hold the address, but the copy
-- that has absorbed the changes recorded still holds the old record.
pub drained_again_stays_published :
    (copy : PirSnapshot) (addr : Address) (e : Entry) (o : Outputs) (s₁ s₂ s₃ : Touch)
    (r₁ r₂ r₃ : Reading)
    → Fits s₁
    → Fits s₂
    → Fits s₃
    → Balances.is_zero r₁ ≡ true
    → Balances.is_zero r₂ ≡ false
    → Balances.is_zero r₃ ≡ true
    → Tracks copy o
    → Balances.get addr o.map ≡ some e
    → Table.get addr copy ≡ some e
    → (o₁ o₂ o₃ : Outputs) × (apply_reading s₁ addr r₁ o ≡ some o₁)
      × (apply_reading s₂ addr r₂ o₁ ≡ some o₂)
      × (apply_reading s₃ addr r₃ o₂ ≡ some o₃)
      × (Balances.get addr o₃.map ≡ none)
      × (Table.get addr (record_batch o₃.changed copy) ≡ some e)
drained_again_stays_published copy addr e o s₁ s₂ s₃ r₁ r₂ r₃ f₁ f₂ f₃ z₁ z₂ z₃ tracks held pub₁ =
    let o₁ : Outputs = next s₁ addr r₁ o in
    let o₂ : Outputs = next s₂ addr r₂ o₁ in
    let o₃ : Outputs = next s₃ addr r₃ o₂ in
    let (_, _, missing) = removed_here s₁ addr r₁ o e held z₁ in
    let (counted, refilled) = inserted_here s₂ addr r₂ o₁ missing z₂ in
    let (told, _, gone) = removed_here s₃ addr r₃ o₂ (refreshed none r₂ s₂) refilled z₃ in
    let once =
      Unique-next s₃ addr r₃ o₂
        (Unique-next s₂ addr r₂ o₁ (Unique-next s₁ addr r₁ o tracks.once)) in
    (
      o₁,
      o₂,
      o₃,
      apply_reading-next s₁ addr r₁ o f₁,
      apply_reading-next s₂ addr r₂ o₁ f₂,
      apply_reading-next s₃ addr r₃ o₂ f₃,
      gone,
      get-record_batch o₃.changed copy addr once ∙ ground arith,
    )
