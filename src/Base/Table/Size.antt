-- ===== src/Base/Table/Size.antt =====
-- How many keys a table holds after each operation.
use poulpy_eth_pir_demo.Base.Tests.{if◌then◌else◌}
use poulpy_eth_pir_demo.Base.Lists.{length}
use poulpy_eth_pir_demo.Base.Equality.{HashKey}
use poulpy_eth_pir_demo.Base.Table.{Table, get, contains_key, insert, remove, Unique}
use Prim.Native.Nat.{◌+◌}
use mathlib.Core.Path.{◌≡◌, refl}
use mathlib.Core.Option.{none}
use mathlib.Core.List.{[], ◌∷◌}
use native.Mathlib.Omega.{arith}

module _ {ℓ κ} {K : Type ℓ} {V : Type κ} ⦃key : HashKey K⦄ where
  pub length-insert :
      (k : K) (v : V) (m : Table K V)
      → length (insert k v m) ≡ (if contains_key k m then length m else length m + 1)
  unfolding get insert contains_key
  length-insert k v [] = refl
  length-insert k v ((j, w) ∷ m) = ground (arith, length-insert k v m)

  pub remove_absent : (k : K) (m : Table K V) → get k m ≡ none → remove k m ≡ m
  unfolding get remove
  remove_absent k [] h = refl
  remove_absent k ((j, w) ∷ m) h = ground (arith, remove_absent k m)

  pub length-remove :
      (k : K) (m : Table K V)
      → Unique m
      → length (remove k m) + (if contains_key k m then 1 else 0) ≡ length m
  unfolding get remove contains_key
  length-remove k [] u = refl
  length-remove k ((j, w) ∷ m) u =
      ground (arith, key.same_iff j k, remove_absent k m, length-remove k m u.1)
