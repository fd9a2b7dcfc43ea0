-- ===== src/Base/Table.antt =====
-- The hash maps and hash sets of the standard library, as association lists. The order of the
-- list stands for the order in which the map iterates, which the standard library leaves open.
pub mod Size
pub mod Fill
use poulpy_eth_pir_demo.Base.Lists.{All}
use poulpy_eth_pir_demo.Base.Tests.{if◌then◌else◌}
use poulpy_eth_pir_demo.Base.Equality.{HashKey, ◌==◌}
use mathlib.Core.Path.{◌≡◌, refl}
use mathlib.Core.Bool.{Bool, true, false}
use mathlib.Core.Option.{Option, none, some}
use mathlib.Core.List.{List, [], ◌∷◌}
use native.Mathlib.Omega.{arith}

abbrev pub Table {ℓ κ} : Type ℓ → Type κ → Type (ℓ ⊔ κ)
Table K V = List (K × V)

abbrev pub is_some {ℓ} : {A : Type ℓ} → Option A → Bool
is_some none = false
is_some (some a) = true

abbrev pub or_default {ℓ} : {A : Type ℓ} → A → Option A → A
or_default d none = d
or_default d (some a) = a

module _ {ℓ κ} {K : Type ℓ} {V : Type κ} ⦃key : HashKey K⦄ where
  unfoldable pub get : K → Table K V → Option V
  get k [] = none
  get k ((j, v) ∷ m) = if j == k then some v else get k m

  unfoldable pub contains_key : K → Table K V → Bool
  contains_key k m = is_some (get k m)

  -- A key that is there keeps its place and its spelling.
  unfoldable pub insert : K → V → Table K V → Table K V
  insert k v [] = (k, v) ∷ []
  insert k v ((j, w) ∷ m) = if j == k then (j, v) ∷ m else (j, w) ∷ insert k v m

  unfoldable pub remove : K → Table K V → Table K V
  remove k [] = []
  remove k ((j, v) ∷ m) = let rest = remove k m in if j == k then rest else (j, v) ∷ rest

  abbrev pub keys : Table K V → List K
  keys [] = []
  keys ((k, v) ∷ m) = k ∷ keys m

  pub get-insert :
      (k j : K) (v : V) (m : Table K V)
      → get j (insert k v m) ≡ (if k == j then some v else get j m)
  unfolding get insert
  get-insert k j v [] = refl
  get-insert k j v ((i, w) ∷ m) =
      ground (arith, key.same_iff k j, key.same_iff i k, key.same_iff i j, get-insert k j v m)

  pub get-remove :
      (k j : K) (m : Table K V) → get j (remove k m) ≡ (if k == j then none else get j m)
  unfolding get remove
  get-remove k j [] = ground arith
  get-remove k j ((i, w) ∷ m) =
      ground (arith, key.same_iff k j, key.same_iff i k, key.same_iff i j, get-remove k j m)

  pub get-insert_self : (k : K) (v : V) (m : Table K V) → get k (insert k v m) ≡ some v
  get-insert_self k v m = ground (arith, get-insert k k v m, key.same_iff k k)

  pub get-remove_self : (k : K) (m : Table K V) → get k (remove k m) ≡ none
  get-remove_self k m = ground (arith, get-remove k k m, key.same_iff k k)

  -- No key stands twice.
  abbrev pub Unique : Table K V → Type κ
  Unique [] = Unit {κ}
  Unique ((k, v) ∷ m) = (get k m ≡ none) × Unique m

  pub Unique-insert : (k : K) (v : V) (m : Table K V) → Unique m → Unique (insert k v m)
  unfolding get insert
  Unique-insert k v [] u = (refl, tt)
  Unique-insert k v ((j, w) ∷ m) u =
      ground
        (arith, key.same_iff j k, key.same_iff k j, get-insert k j v m, Unique-insert k v m u.1)

  pub Unique-remove : (k : K) (m : Table K V) → Unique m → Unique (remove k m)
  unfolding get remove
  Unique-remove k [] u = tt
  Unique-remove k ((j, w) ∷ m) u = ground (arith, get-remove k j m, Unique-remove k m u.1)

  -- What holds of each key with its value holds of each row, if no key stands twice.
  pub All-get {μ} :
      (P : K × V → Type μ) (m : Table K V)
      → Unique m
      → ((j : K) (v : V) → get j m ≡ some v → P (j, v))
      → All P m
  unfolding get
  All-get P [] once h = tt
  All-get P ((k, v) ∷ m) (absent, once) h =
      (h k v here, All-get P m once (λ j w p. h j w (behind j w p)))
    where
      here : get k ((k, v) ∷ m) ≡ some v
      here = ground (arith, key.same_iff k k)

      behind : (j : K) (w : V) → get j m ≡ some w → get j ((k, v) ∷ m) ≡ some w
      behind j w p = ground (arith, key.same_iff k j, absent, p)
