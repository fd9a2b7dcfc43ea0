-- ===== src/Text/Decimal.antt =====
-- A number written in decimal is read back.
use poulpy_eth_pir_demo.Base.{
  ℕ, zero, suc, ◌+◌, ◌-◌, ◌*◌, ◌/◌, ◌%◌, ◌≤◌, ◌<◌, ◌≡◌, ◌≢◌, refl, none, some, [], ◌∷◌, ◌++◌,
  length, replicate, arith, All, All-append, length-append, ap, sym, ◌∙◌, ◌^◌, ◌⊎◌,
  length-replicate,
}
use native.Mathlib.Nat.{pow-suc}
use poulpy_eth_pir_demo.Text.{
  Text, digits_fuel, to_decimal, to_decimal_padded, parse_digits, parse_number, split_once,
}

abbrev pub IsDigit : ℕ → Type 0
IsDigit c = (b'0' ≤ c) × (c ≤ b'9')

digits_fuel-IsDigit : (fuel n : ℕ) → All IsDigit (digits_fuel fuel n)
unfolding digits_fuel
digits_fuel-IsDigit zero n = tt
digits_fuel-IsDigit (suc fuel) zero = tt
digits_fuel-IsDigit (suc fuel) (suc n) =
    All-append IsDigit _ _ (digits_fuel-IsDigit fuel (suc n / 10)) (omega arith)

pub to_decimal-IsDigit : (n : ℕ) → All IsDigit (to_decimal n)
unfolding to_decimal
to_decimal-IsDigit zero = omega arith
to_decimal-IsDigit (suc n) = digits_fuel-IsDigit (suc n) (suc n)

-- The digits of a front part, and then one more.
parse_digits-snoc :
    (bound : ℕ) (cs : Text) (c acc n : ℕ)
    → parse_digits bound cs acc ≡ some n
    → IsDigit c
    → n * 10 + (c - b'0') < bound
    → parse_digits bound (cs ++ (c ∷ [])) acc ≡ some (n * 10 + (c - b'0'))
unfolding parse_digits
parse_digits-snoc bound [] c acc n e digit fits = ground arith
parse_digits-snoc bound (d ∷ cs) c acc n e digit fits = ground (
  arith,
  λ (h : parse_digits bound cs (acc * 10 + (d - b'0')) ≡ some n).
      parse_digits-snoc bound cs c (acc * 10 + (d - b'0')) n h digit fits,
)

digits_fuel-parse :
    (bound fuel n : ℕ) → n ≤ fuel → n < bound → parse_digits bound (digits_fuel fuel n) 0 ≡ some n
unfolding digits_fuel parse_digits
digits_fuel-parse bound zero n h fits = ground arith
digits_fuel-parse bound (suc fuel) zero h fits = refl
digits_fuel-parse bound (suc fuel) (suc n) h fits =
    parse_digits-snoc bound (digits_fuel fuel (suc n / 10)) (b'0' + suc n % 10) 0 (suc n / 10)
      (digits_fuel-parse bound fuel (suc n / 10) (omega arith) (omega arith)) (omega arith)
      (omega arith)
    ∙ ap some (omega arith)

to_decimal-parse : (bound n : ℕ) → n < bound → parse_digits bound (to_decimal n) 0 ≡ some n
unfolding to_decimal parse_digits
to_decimal-parse bound zero fits = ground arith
to_decimal-parse bound (suc n) fits = digits_fuel-parse bound (suc n) (suc n) (omega arith) fits

-- Digits alone are read by `parse`, sign or not.
digits-parse :
    (bound : ℕ) (cs : Text) (n : ℕ)
    → All IsDigit cs
    → 1 ≤ length cs
    → parse_number bound cs ≡ parse_digits bound cs 0
unfolding parse_number
digits-parse bound [] n h some_digit = absurd (omega arith)
digits-parse bound (c ∷ []) n h some_digit = refl
digits-parse bound (c ∷ d ∷ cs) n (h, rest) some_digit = ground arith

digits_fuel-length : (fuel n : ℕ) → 1 ≤ length (digits_fuel (suc fuel) (suc n))
unfolding digits_fuel
digits_fuel-length fuel n =
    omega (arith, length-append (digits_fuel fuel (suc n / 10)) ((b'0' + suc n % 10) ∷ []))

pub length-to_decimal : (n : ℕ) → 1 ≤ length (to_decimal n)
unfolding to_decimal
length-to_decimal zero = omega arith
length-to_decimal (suc n) = digits_fuel-length n n

pub parse_number-to_decimal : (bound n : ℕ) → n < bound → parse_number bound (to_decimal n) ≡ some n
parse_number-to_decimal bound n fits =
    digits-parse bound (to_decimal n) n (to_decimal-IsDigit n) (length-to_decimal n)
    ∙ to_decimal-parse bound n fits

digits_fuel-short : (k fuel n : ℕ) → n < 10 ^ k → length (digits_fuel fuel n) ≤ k
unfolding digits_fuel
digits_fuel-short k zero n h = omega arith
digits_fuel-short k (suc fuel) zero h = omega arith
digits_fuel-short zero (suc fuel) (suc n) h = absurd (omega arith)
digits_fuel-short (suc k) (suc fuel) (suc n) h = omega (
  arith,
  length-append (digits_fuel fuel (suc n / 10)) ((b'0' + suc n % 10) ∷ []),
  digits_fuel-short k fuel (suc n / 10) (omega (arith, pow-suc 10 k)),
)

to_decimal-short : (k n : ℕ) → n < 10 ^ suc k → length (to_decimal n) ≤ suc k
unfolding to_decimal
to_decimal-short k zero h = omega arith
to_decimal-short k (suc n) h = digits_fuel-short (suc k) (suc n) (suc n) h

-- A number that fits a width is padded to it.
pub length-to_decimal_padded :
    (k n : ℕ) → n < 10 ^ suc k → length (to_decimal_padded (suc k) n) ≡ suc k
unfolding to_decimal_padded
length-to_decimal_padded k n h = omega (
  arith,
  length-append (replicate (suc k - length (to_decimal n)) b'0') (to_decimal n),
  length-replicate {A = ℕ} (suc k - length (to_decimal n)) b'0',
  to_decimal-short k n h,
)

zeros-IsDigit : (k : ℕ) → All IsDigit (replicate k b'0')
zeros-IsDigit zero = tt
zeros-IsDigit (suc k) = (omega arith, zeros-IsDigit k)

parse_digits-zeros :
    (bound k : ℕ) (cs : Text)
    → 1 ≤ bound
    → parse_digits bound (replicate k b'0' ++ cs) 0 ≡ parse_digits bound cs 0
unfolding parse_digits
parse_digits-zeros bound zero cs h = refl
parse_digits-zeros bound (suc k) cs h = ground (arith, parse_digits-zeros bound k cs h)

pub parse_number-to_decimal_padded :
    (bound k n : ℕ) → n < bound → parse_number bound (to_decimal_padded k n) ≡ some n
unfolding to_decimal_padded
parse_number-to_decimal_padded bound k n fits =
    digits-parse bound (zeros ++ to_decimal n) n
      (All-append IsDigit zeros (to_decimal n) (zeros-IsDigit _) (to_decimal-IsDigit n))
      (omega (arith, length-append zeros (to_decimal n), length-to_decimal n))
    ∙ parse_digits-zeros bound (k - length (to_decimal n)) (to_decimal n) (omega arith)
    ∙ to_decimal-parse bound n fits
  where
    zeros : Text
    zeros = replicate (k - length (to_decimal n)) b'0'

-- The first separator stands behind a text without one.
pub split_once-append :
    (sep : ℕ) (front back : Text)
    → All (λ c. c ≢ sep) front
    → split_once sep (front ++ (sep ∷ back)) ≡ (front, some back)
unfolding split_once
split_once-append sep [] back h = ground arith
split_once-append sep (c ∷ front) back (h, rest) =
    ground (arith, split_once-append sep front back rest)

pub split_once-absent :
    (sep : ℕ) (text : Text) → All (λ c. c ≢ sep) text → split_once sep text ≡ (text, none)
unfolding split_once
split_once-absent sep [] h = refl
split_once-absent sep (c ∷ text) (h, rest) = ground (arith, split_once-absent sep text rest)

pub digits_without :
    (sep : ℕ) (text : Text)
    → (sep < b'0') ⊎ (b'9' < sep)
    → All IsDigit text
    → All (λ c. c ≢ sep) text
digits_without sep [] h digits = tt
digits_without sep (c ∷ text) h (d, digits) = (omega arith, digits_without sep text h digits)

-- Two numbers written alike are the same.
pub to_decimal-injective : (n m : ℕ) → to_decimal n ≡ to_decimal m → n ≡ m
to_decimal-injective n m e =
    let read : some n ≡ some m =
      sym (parse_number-to_decimal (suc (n + m)) n (omega arith))
      ∙ ap (parse_number (suc (n + m))) e
      ∙ parse_number-to_decimal (suc (n + m)) m (omega arith) in
    cc read

pub to_decimal_padded-IsDigit : (k n : ℕ) → All IsDigit (to_decimal_padded k n)
unfolding to_decimal_padded
to_decimal_padded-IsDigit k n =
    All-append IsDigit _ (to_decimal n) (zeros-IsDigit (k - length (to_decimal n)))
      (to_decimal-IsDigit n)

pub to_decimal_without :
    (sep n : ℕ) → (sep < b'0') ⊎ (b'9' < sep) → All (λ c. c ≢ sep) (to_decimal n)
to_decimal_without sep n h = digits_without sep (to_decimal n) h (to_decimal-IsDigit n)
