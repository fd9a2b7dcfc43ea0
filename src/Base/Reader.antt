-- ===== src/Base/Reader.antt =====
-- Reading from the front of a byte string (`Read::read_exact`), and what it means that a reader
-- does not look past what it takes.
use poulpy_eth_pir_demo.Base.Tests.{ltb, if◌then◌else◌}
use poulpy_eth_pir_demo.Base.Lists.{length, take, drop, length-append}
use poulpy_eth_pir_demo.Base.Lists.{take-append, drop-append}
use poulpy_eth_pir_demo.Base.Run.{Result, ok, err, Run, pure, fail, continue, ◌>>=◌}
use Prim.Native.Nat.{ℕ, zero, suc, ◌≤◌}
use mathlib.Core.Path.{◌≡◌, refl, ap, ◌∙◌}
use mathlib.Core.Bool.{Bool, true, false}
use mathlib.Core.List.{List, [], ◌∷◌, ◌++◌}
use native.Mathlib.Omega.{arith}

-- The state is what has not been read yet.
abbrev pub Reader : Type 0 → Type 0 → Type 0
Reader E A = Run (List ℕ) E A

-- The first `n` bytes, or the error if there are fewer. On an error the standard library leaves the
-- position open, and every caller gives up.
unfoldable pub read_exact : {E : Type 0} → ℕ → E → Reader E (List ℕ)
read_exact n e f = if ltb (length f) n then (err e, []) else (ok (take n f), drop n f)

-- A successful run gives the same value with more input, and leaves what was added.
pub record IsLocal {E A : Type 0} (m : Reader E A) : Type 0 where
  pub extend : (f more f' : List ℕ) (a : A) → m f ≡ (ok a, f') → m (f ++ more) ≡ (ok a, f' ++ more)

take-append_le : (n : ℕ) (f more : List ℕ) → n ≤ length f → take n (f ++ more) ≡ take n f
take-append_le zero f more h = refl
take-append_le (suc n) [] more h = absurd (omega arith)
take-append_le (suc n) (b ∷ f) more h = ap (◌∷◌ b) (take-append_le n f more (omega arith))

drop-append_le : (n : ℕ) (f more : List ℕ) → n ≤ length f → drop n (f ++ more) ≡ drop n f ++ more
drop-append_le zero f more h = refl
drop-append_le (suc n) [] more h = absurd (omega arith)
drop-append_le (suc n) (b ∷ f) more h = drop-append_le n f more (omega arith)

pub read_exact-IsLocal : {E : Type 0} (n : ℕ) (e : E) → IsLocal (read_exact n e)
unfolding read_exact
read_exact-IsLocal n e = record {
  extend = λ f more f' a h. ground (
    arith,
    length-append f more,
    λ (p : n ≤ length f). take-append_le n f more p,
    λ (p : n ≤ length f). drop-append_le n f more p,
  );
}

-- What was written comes back, and what follows it is left.
pub read_exact-append :
    {E : Type 0} (xs ys : List ℕ) (n : ℕ) (e : E)
    → n ≡ length xs
    → read_exact n e (xs ++ ys) ≡ (ok xs, ys)
unfolding read_exact
read_exact-append xs ys n e h =
    ground (arith, length-append xs ys, take-append xs ys n h, drop-append xs ys n h)

module _ {E A : Type 0} where
  pub pure-IsLocal : (a : A) → IsLocal {E = E} (pure a)
  pure-IsLocal a = record { extend = λ f more f' b h. ground arith }

  pub fail-IsLocal : (e : E) → IsLocal {A = A} (fail e)
  fail-IsLocal e = record { extend = λ f more f' b h. cc }

  pub if-IsLocal :
      (b : Bool) (m n : Reader E A) → IsLocal m → IsLocal n → IsLocal (if b then m else n)
  if-IsLocal true m n h k = h
  if-IsLocal false m n h k = k

module _ {E A B : Type 0} where
  -- A step that succeeds hands its value and what it left to the rest of the run.
  pub bind_step :
      (m : Reader E A) (k : A → Reader E B) {f g : List ℕ} {a : A}
      → m f ≡ (ok a, g)
      → (m >>= k) f ≡ k a g
  bind_step m k h = ap (λ (r : Result E A × List ℕ). continue r.0 k r.1) h

  -- The outcome and the rest of a run, taken apart.
  Outcome-cases :
      (m : Reader E A) (k : A → Reader E B) (f f' : List ℕ) (b : B)
      → (m >>= k) f ≡ (ok b, f')
      → (a : A) × (g : List ℕ) × (m f ≡ (ok a, g)) × (k a g ≡ (ok b, f'))
  Outcome-cases m k f f' b h = go (m f).0 refl h
    where
      go :
          (r : Result E A)
          → (m f).0 ≡ r
          → continue (m f).0 k (m f).1 ≡ (ok b, f')
          → (a : A) × (g : List ℕ) × (m f ≡ (ok a, g)) × (k a g ≡ (ok b, f'))
      go (ok a) e h = (a, (m f).1, λ i. (e i, (m f).1), rw e at h)
      go (err x) e h = cc (h, e)

  pub bind-IsLocal :
      (m : Reader E A) (k : A → Reader E B)
      → IsLocal m
      → ((a : A) → IsLocal (k a))
      → IsLocal (m >>= k)
  bind-IsLocal m k hm hk = record {
    extend = λ f more f' b h.
        let (a, g, p, q) = Outcome-cases m k f f' b h in
        ap (λ (r : Result E A × List ℕ). continue r.0 k r.1) (hm.extend f more g a p)
        ∙ (hk a).extend g more f' b q;
  }

pub ruleset local_rules = (read_exact-IsLocal, pure-IsLocal, fail-IsLocal, if-IsLocal, bind-IsLocal)
