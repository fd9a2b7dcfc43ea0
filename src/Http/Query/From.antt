-- ===== src/Http/Query/From.antt =====
-- The `from` parameter of the tail route.
use poulpy_eth_pir_demo.Base.{
  ℕ, zero, suc, ◌<◌, ◌^◌, ◌≡◌, ◌≢◌, inl, inr, refl, ap, ◌∙◌, Option, none, some, List, [], ◌∷◌,
  ◌++◌, length, All, All-append, arith, length-append, nat_eq, Bool-cases, append-nil,
}
use poulpy_eth_pir_demo.Base.Equality.{byte_list_eq, bytes_eq_iff}
use poulpy_eth_pir_demo.Text.{Text, to_decimal, split_once}
use poulpy_eth_pir_demo.Text.Decimal.{
  to_decimal-IsDigit, parse_number-to_decimal, split_once-append, split_once-absent, digits_without,
}
use poulpy_eth_pir_demo.Http.Query.{from_key, or_empty, parse_pair, parse_pairs, parse_from}

-- What is behind a separator is shorter.
abbrev Shortened : Text → Option Text → Type 0
Shortened text none = Unit
Shortened text (some tail) = length tail < length text

split_once-Shortened : (sep : ℕ) (text : Text) → Shortened text (split_once sep text).1
unfolding split_once
split_once-Shortened sep [] = tt
split_once-Shortened sep (c ∷ text) = elim (Bool-cases (nat_eq c sep)) [
  | inl here ↦ rw here (omega arith)
  | inr there ↦ rw there (go (split_once sep text).1 (split_once-Shortened sep text))
]
  where
    go : (rest : Option Text) → Shortened text rest → Shortened (c ∷ text) rest
    go none h = tt
    go (some tail) h = omega arith

-- Fuel above the length is enough.
parse_pairs-fuel :
    (f g : ℕ) (raw : Text) → length raw < f → length raw < g → parse_pairs f raw ≡ parse_pairs g raw
unfolding parse_pairs
parse_pairs-fuel zero g raw p q = absurd (omega arith)
parse_pairs-fuel (suc f) zero raw p q = absurd (omega arith)
parse_pairs-fuel (suc f) (suc g) raw p q =
    go (split_once b'&' raw).1 (split_once-Shortened b'&' raw) (parse_pair (split_once b'&' raw).0)
      (λ tail h. parse_pairs-fuel f g tail (omega arith) (omega arith))
  where
    go :
        (rest : Option Text)
        → Shortened raw rest
        → (found : Option (Option ℕ))
        → ((tail : Text) → length tail < length raw → parse_pairs f tail ≡ parse_pairs g tail)
        → elim found as (λ x. Option ℕ) [
          | some value ↦ value
          | none ↦ elim rest as (λ x. Option ℕ) [
            | none ↦ some 0
            | some tail ↦ parse_pairs f (or_empty rest)
          ]
        ]
          ≡ elim found as (λ x. Option ℕ) [
            | some value ↦ value
            | none ↦ elim rest as (λ x. Option ℕ) [
              | none ↦ some 0
              | some tail ↦ parse_pairs g (or_empty rest)
            ]
          ]
    go rest h (some value) rec = refl
    go none h none rec = refl
    go (some tail) h none rec = rec tail h

-- A pair without `&` whose key is not `from`; an empty one is such.
abbrev pub IsOther : Text → Type 0
IsOther pair = All (λ c. c ≢ b'&') pair × ((split_once b'=' pair).0 ≢ from_key)

parse_pair-other : (pair : Text) → (split_once b'=' pair).0 ≢ from_key → parse_pair pair ≡ none
unfolding parse_pair
parse_pair-other pair h = ground (arith, h, bytes_eq_iff (split_once b'=' pair).0 from_key)

parse_pairs-found :
    (fuel : ℕ) (raw pair : Text) (rest : Option Text) (value : Option ℕ)
    → split_once b'&' raw ≡ (pair, rest)
    → parse_pair pair ≡ some value
    → parse_pairs (suc fuel) raw ≡ value
unfolding parse_pairs
parse_pairs-found fuel raw pair rest value e p = rw (parse_pairs, e, p) refl

parse_pairs-other :
    (fuel : ℕ) (raw pair tail : Text)
    → split_once b'&' raw ≡ (pair, some tail)
    → parse_pair pair ≡ none
    → parse_pairs (suc fuel) raw ≡ parse_pairs fuel tail
unfolding parse_pairs
parse_pairs-other fuel raw pair tail e p =
    let front : (split_once b'&' raw).0 ≡ pair = ap (λ s. s.0) e in
    let back : (split_once b'&' raw).1 ≡ some tail = ap (λ s. s.1) e in
    rw (parse_pairs, front, p, back) (ap (λ r. parse_pairs fuel (or_empty r)) back)

parse_from-other :
    (pair raw : Text)
    → IsOther pair
    → parse_from (some (pair ++ (b'&' ∷ raw))) ≡ parse_from (some raw)
unfolding parse_from
parse_from-other pair raw (clean, other) =
    parse_pairs-other (length (pair ++ (b'&' ∷ raw))) (pair ++ (b'&' ∷ raw)) pair raw
      (split_once-append b'&' pair raw clean) (parse_pair-other pair other)
    ∙ (parse_pairs-fuel (length (pair ++ (b'&' ∷ raw))) (suc (length raw)) raw
        (omega (arith, length-append pair (b'&' ∷ raw))) (omega arith))

-- The pair that gives a number.
abbrev pub from_pair : ℕ → Text
from_pair n = from_key ++ (b'=' ∷ to_decimal n)

parse_pair-from : (n : ℕ) → n < 2 ^ 64 → parse_pair (from_pair n) ≡ some (some n)
unfolding parse_pair
parse_pair-from n h =
    rw (split_once-append b'=' from_key (to_decimal n) (omega arith)) (
      ground (arith, parse_number-to_decimal (2 ^ 64) n h, (bytes_eq_iff from_key from_key).1 refl))

-- Pairs with `&` between them, before a last part.
abbrev pub joined : List Text → Text → Text
joined [] last = last
joined (pair ∷ pairs) last = pair ++ (b'&' ∷ joined pairs last)

-- Nothing behind the pair, or another `&`.
abbrev pub behind : Option Text → Text
behind none = []
behind (some more) = b'&' ∷ more

parse_from-first :
    (n : ℕ) (after : Option Text)
    → n < 2 ^ 64
    → parse_from (some (from_pair n ++ behind after)) ≡ some n
unfolding parse_from
parse_from-first n after h = go after
  where
    clean : All (λ c. c ≢ b'&') (from_pair n)
    clean =
        All-append (λ c. c ≢ b'&') from_key (b'=' ∷ to_decimal n) (omega arith)
          (
            omega arith,
            digits_without b'&' (to_decimal n) (inl (omega arith)) (to_decimal-IsDigit n),
          )

    go :
        (after : Option Text)
        → parse_pairs (suc (length (from_pair n ++ behind after))) (from_pair n ++ behind after)
          ≡ some n
    go none =
        parse_pairs-found _ (from_pair n ++ []) (from_pair n) none (some n)
          (ap (split_once b'&') (append-nil (from_pair n))
            ∙ split_once-absent b'&' (from_pair n) clean)
          (parse_pair-from n h)
    go (some more) =
        parse_pairs-found _ (from_pair n ++ (b'&' ∷ more)) (from_pair n) (some more) (some n)
          (split_once-append b'&' (from_pair n) more clean) (parse_pair-from n h)

-- However many other pairs come before it, empty ones among them, and whatever follows it, the first
-- pair with the key `from` and a number of 64 bits in decimal gives that number.
pub parse_from-joined :
    (before : List Text) (n : ℕ) (after : Option Text)
    → All IsOther before
    → n < 2 ^ 64
    → parse_from (some (joined before (from_pair n ++ behind after))) ≡ some n
parse_from-joined [] n after h fits = parse_from-first n after fits
parse_from-joined (pair ∷ before) n after (h, rest) fits =
    parse_from-other pair (joined before (from_pair n ++ behind after)) h
    ∙ parse_from-joined before n after rest fits
