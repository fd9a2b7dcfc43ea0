-- ===== src/Snapshot/OneByte.antt =====
-- A byte string with one byte changed, and its digest.
use poulpy_eth_pir_demo.Base.{
  ℕ, suc, ◌<◌, ◌≡◌, ◌≢◌, ◌⊎◌, inl, inr, refl, sym, ap, ◌∙◌, subst, List, [], ◌∷◌, ◌++◌, length,
  arith, All, length-append,
}
use poulpy_eth_pir_demo.Base.Equality.{byte_list_eq}
use poulpy_eth_pir_demo.Base.Bytes.{IsByte, IsU64}
use poulpy_eth_pir_demo.Snapshot.{eat}
use poulpy_eth_pir_demo.Snapshot.Digest.{eat_one-injective}

-- A byte of a string in two parts stands in the first or in the second.
pub split :
    (xs ys front back : List ℕ) (b : ℕ)
    → xs ++ ys ≡ front ++ (b ∷ back)
    → ((back' : List ℕ) × (xs ≡ front ++ (b ∷ back')) × (back ≡ back' ++ ys))
      ⊎ ((front' : List ℕ) × (front ≡ xs ++ front') × (ys ≡ front' ++ (b ∷ back)))
split [] ys front back b e = inr (front, refl, e)
split (x ∷ xs) ys [] back b e = inl (xs, cc, cc)
split (x ∷ xs) ys (f ∷ front) back b e = elim (split xs ys front back b cc) [
  | inl (back', p, q) ↦ inl (back', cc, q)
  | inr (front', p, q) ↦ inr (front', cc, q)
]

pub same_byte :
    (front back : List ℕ) (b b' : ℕ) → front ++ (b ∷ back) ≡ front ++ (b' ∷ back) → b ≡ b'
same_byte [] back b b' e = cc
same_byte (f ∷ front) back b b' e = same_byte front back b b' cc

pub inside :
    {part : List ℕ} (front back : List ℕ) (b : ℕ)
    → part ≡ front ++ (b ∷ back)
    → length front < length part
inside front back b at = omega (arith, ap length at, length-append front (b ∷ back))

behind :
    (front back : List ℕ) (b : ℕ) → All IsByte (front ++ (b ∷ back)) → IsByte b × All IsByte back
behind [] back b h = h
behind (x ∷ front) back b h = behind front back b h.1

replaced :
    (front back : List ℕ) (b b' : ℕ)
    → All IsByte (front ++ (b ∷ back))
    → IsByte b'
    → All IsByte (front ++ (b' ∷ back))
replaced [] back b b' h small = (small, h.1)
replaced (x ∷ front) back b b' h small = (h.0, replaced front back b b' h.1 small)

same_length :
    (front back : List ℕ) (b b' : ℕ) → length (front ++ (b' ∷ back)) ≡ length (front ++ (b ∷ back))
same_length [] back b b' = refl
same_length (x ∷ front) back b b' = ap suc (same_length front back b b')

-- A part of the file, with a byte of it changed.
module _ (part front back : List ℕ) (b b' : ℕ) (at : part ≡ front ++ (b ∷ back))
    (part_bytes : All IsByte part) (small : IsByte b') (other : b ≢ b') where
  abbrev changed : List ℕ
  changed = front ++ (b' ∷ back)

  pub changed-IsByte : All IsByte changed
  changed-IsByte =
      replaced front back b b' (subst (λ (bs : List ℕ). All IsByte bs) at part_bytes) small

  pub length-changed : length changed ≡ length part
  length-changed = same_length front back b b' ∙ ap length (sym at)

  pub eat-changed : (h : ℕ) → IsU64 h → eat part h ≢ eat changed h
  eat-changed h fits same =
      let (small_b, back_bytes) =
        behind front back b (subst (λ (bs : List ℕ). All IsByte bs) at part_bytes) in
      other (
        eat_one-injective front back b b' h back_bytes small_b small fits
          (ap (λ bs. eat bs h) (sym at) ∙ same))

  pub part-changed : part ≢ changed
  part-changed same = other (same_byte front back b b' (sym at ∙ same))
