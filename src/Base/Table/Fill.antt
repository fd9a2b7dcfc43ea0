-- ===== src/Base/Table/Fill.antt =====
-- Filling an empty table with the entries of another one, in order.
use poulpy_eth_pir_demo.Base.Equality.{HashKey}
use poulpy_eth_pir_demo.Base.Table.{Table, get, insert, Unique}
use mathlib.Core.Path.{◌≡◌, refl, sym, ◌∙◌}
use mathlib.Core.Bool.{false}
use mathlib.Core.Option.{none}
use mathlib.Core.List.{[], ◌∷◌, ◌++◌, append-nil, append_assoc}
use native.Mathlib.Omega.{arith}

module _ {ℓ κ} {K : Type ℓ} {V : Type κ} ⦃key : HashKey K⦄ where
  -- Every entry of a list inserted, the first one first.
  unfoldable pub insert_all : Table K V → Table K V → Table K V
  insert_all acc [] = acc
  insert_all acc ((k, v) ∷ m) = insert_all (insert k v acc) m

  insert_fresh :
      (k : K) (v : V) (m : Table K V) → get k m ≡ none → insert k v m ≡ m ++ ((k, v) ∷ [])
  unfolding get insert
  insert_fresh k v [] h = refl
  insert_fresh k v ((j, w) ∷ m) h = ground (arith, insert_fresh k v m)

  get-append_none :
      (j k : K) (v : V) (acc m : Table K V)
      → get j (acc ++ ((k, v) ∷ m)) ≡ none
      → (get j acc ≡ none) × (key.same k j ≡ false)
  unfolding get
  get-append_none j k v [] m h = ground arith
  get-append_none j k v ((i, w) ∷ acc) m h = ground (arith, get-append_none j k v acc m)

  Unique-fresh :
      (k : K) (v : V) (acc m : Table K V) → Unique (acc ++ ((k, v) ∷ m)) → get k acc ≡ none
  unfolding get
  Unique-fresh k v [] m u = refl
  Unique-fresh k v ((j, w) ∷ acc) m u = ground (
    arith,
    get-append_none j k v acc m u.0,
    Unique-fresh k v acc m u.1,
    key.same_iff k j,
    key.same_iff j k,
  )

  insert_all-append : (acc m : Table K V) → Unique (acc ++ m) → insert_all acc m ≡ acc ++ m
  unfolding insert_all
  insert_all-append acc [] u = sym (append-nil acc)
  insert_all-append acc ((k, v) ∷ m) u = rw (insert_fresh k v acc (Unique-fresh k v acc m u)) (
      insert_all-append (acc ++ ((k, v) ∷ [])) m (rw (append_assoc acc) u)
      ∙ append_assoc acc ((k, v) ∷ []) m)

  -- Keys that differ keep their order, so the table comes back as it was.
  pub insert_all_lem : (m : Table K V) → Unique m → insert_all [] m ≡ m
  insert_all_lem m u = insert_all-append [] m u
