-- ===== src/Base/Run.antt =====
-- Results, and code that changes a state and may fail. What was written before a failure stays
-- written, as with Rust's `&mut` arguments and the `?` operator: the state comes back beside the
-- error too.
pub data Result {ℓ κ} (E : Type ℓ) (A : Type κ) : Type (ℓ ⊔ κ) where
  ok : A → Result E A
  err : E → Result E A

abbrev pub and_then {ℓ κ μ} :
    {E : Type ℓ} {A : Type κ} {B : Type μ} → Result E A → (A → Result E B) → Result E B
and_then (ok a) f = f a
and_then (err e) f = err e

abbrev pub Run {ℓ} : Type ℓ → Type ℓ → Type ℓ → Type ℓ
Run S E A = S → Result E A × S

module _ {ℓ} {S E A : Type ℓ} where
  abbrev pub pure : A → Run S E A
  pure a s = (ok a, s)

  abbrev pub fail : E → Run S E A
  fail e s = (err e, s)

  abbrev pub lift : Result E A → Run S E A
  lift r s = (r, s)

module _ {ℓ} {S E A B : Type ℓ} where
  abbrev pub continue : Result E A → (A → Run S E B) → S → Result E B × S
  continue (ok a) f s = f a s
  continue (err e) f s = (err e, s)

  infixl 5 ◌>>=◌ ◌>>◌
  abbrev pub ◌>>=◌ : Run S E A → (A → Run S E B) → Run S E B
  ◌>>=◌ m f s = let (r, s') = m s in continue r f s'

  abbrev pub ◌>>◌ : Run S E A → Run S E B → Run S E B
  m >> n = m >>= λ _. n
