-- ===== src/Base/Slices.antt =====
-- Byte ranges of a buffer: `buf[i..j]` and `buf[i..j].copy_from_slice(bytes)`.
use poulpy_eth_pir_demo.Base.Lists.{length, take, drop, replicate, take-append, drop-append}
use Prim.Native.Nat.{ℕ, zero, suc, ◌+◌, ◌-◌}
use mathlib.Core.Path.{◌≡◌, refl, sym, ap, ◌∙◌}
use mathlib.Core.List.{List, [], ◌∷◌, ◌++◌, append_assoc}
use native.Mathlib.Omega.{arith}

module _ {ℓ} {A : Type ℓ} where
  unfoldable pub slice : ℕ → ℕ → List A → List A
  slice i j buf = take (j - i) (drop i buf)

  -- The source copies bytes of exactly the range's length, so the range is given by its start.
  unfoldable pub copy_into : ℕ → List A → List A → List A
  copy_into i bytes buf = take i buf ++ (bytes ++ drop (i + length bytes) buf)

  drop-nil : (n : ℕ) → drop {A = A} n [] ≡ []
  drop-nil zero = refl
  drop-nil (suc n) = refl

  drop-drop : (i j : ℕ) (xs : List A) → drop (i + j) xs ≡ drop j (drop i xs)
  drop-drop zero j xs = ap (λ (n : ℕ). drop n xs) (omega arith)
  drop-drop (suc i) j [] = drop-nil (suc i + j) ∙ sym (drop-nil j)
  drop-drop (suc i) j (x ∷ xs) =
      let step : suc i + j ≡ suc (i + j) = omega arith in rw step (drop-drop i j xs)

  -- Copying at the end of a front part keeps it and replaces as much of the rest.
  pub copy_into_at :
      (xs ys bytes : List A) (i : ℕ)
      → i ≡ length xs
      → copy_into i bytes (xs ++ ys) ≡ xs ++ (bytes ++ drop (length bytes) ys)
  unfolding copy_into
  copy_into_at xs ys bytes i h =
      rw (take-append xs ys i h, drop-drop i (length bytes) (xs ++ ys), drop-append xs ys i h)

  -- The range from the end of a front part is what stands there.
  pub slice_at :
      (xs bytes ys : List A) (i j : ℕ)
      → i ≡ length xs
      → j ≡ i + length bytes
      → slice i j (xs ++ (bytes ++ ys)) ≡ bytes
  unfolding slice
  slice_at xs bytes ys i j h k =
      rw (drop-append xs (bytes ++ ys) i h) (take-append bytes ys (j - i) (omega arith))

  pub drop-replicate : (n m : ℕ) (a : A) → drop n (replicate m a) ≡ replicate (m - n) a
  drop-replicate zero m a = ap (λ (k : ℕ). replicate k a) (omega arith)
  drop-replicate (suc n) zero a =
      ap (λ (k : ℕ). replicate k a) {x = 0} {y = 0 - suc n} (omega arith)
  drop-replicate (suc n) (suc m) a =
      drop-replicate n m a ∙ ap (λ (k : ℕ). replicate k a) (omega arith)

  -- The first copy into the blank rest of a buffer.
  pub copy_into_blank :
      (xs bytes : List A) (i n : ℕ) (a : A)
      → i ≡ length xs
      → copy_into i bytes (xs ++ replicate n a) ≡ (xs ++ bytes) ++ replicate (n - length bytes) a
  copy_into_blank xs bytes i n a h =
      copy_into_at xs (replicate n a) bytes i h
      ∙ rw (drop-replicate (length bytes) n a) (sym (append_assoc xs bytes _))
