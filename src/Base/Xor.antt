-- ===== src/Base/Xor.antt =====
-- `bit_xor` on native numbers: its law for the lowest digit, that it can be undone, and its bound.
use Prim.Native.Nat.{bit_xor, digits, differ, bit_xor-bitwise}
use native.Mathlib.Nat.{pow-suc}
use poulpy_eth_pir_demo.Base.{
  ℕ, zero, suc, ◌+◌, ◌*◌, ◌/◌, ◌%◌, ◌^◌, ◌≤◌, ◌<◌, ◌⊎◌, inl, inr, ◌≡◌, refl, sym, ap, ◌∙◌, arith,
}

abbrev xor_digits : ℕ → ℕ → ℕ → ℕ
xor_digits n a b = digits (λ b. b) differ n a b

xor_digits_fuel : (n m a b : ℕ) → a ≤ n → a ≤ m → xor_digits n a b ≡ xor_digits m a b
xor_digits_fuel zero zero a b p q = refl
xor_digits_fuel zero (suc m) zero b p q = refl
xor_digits_fuel zero (suc m) (suc a) b p q = absurd (omega arith)
xor_digits_fuel (suc n) zero zero b p q = refl
xor_digits_fuel (suc n) zero (suc a) b p q = absurd (omega arith)
xor_digits_fuel (suc n) (suc m) zero b p q = refl
xor_digits_fuel (suc n) (suc m) (suc a) b p q =
    omega (arith, xor_digits_fuel n m (suc a / 2) (b / 2) (omega arith) (omega arith))

zero-bit_xor : (b : ℕ) → bit_xor 0 b ≡ b
zero-bit_xor b = bit_xor-bitwise 0 b

bit : (n : ℕ) → (n % 2 ≡ 0) ⊎ (n % 2 ≡ 1)
bit n = ground arith

bit_xor_step : (a b : ℕ) → bit_xor a b ≡ bit_xor (a / 2) (b / 2) * 2 + differ (a % 2) (b % 2)
bit_xor_step zero b = omega (arith, zero-bit_xor b, zero-bit_xor (b / 2))
bit_xor_step (suc a) b = omega (
  arith,
  bit_xor-bitwise (suc a) b,
  bit_xor-bitwise (suc a / 2) (b / 2),
  xor_digits_fuel a (suc a / 2) (suc a / 2) (b / 2) (omega arith) (omega arith),
)

-- What holds of the four pairs of digits holds of the lowest digits of any two numbers.
by_digits : (P : ℕ → ℕ → Type 0) → P 0 0 → P 0 1 → P 1 0 → P 1 1 → (a b : ℕ) → P (a % 2) (b % 2)
by_digits P x y z w a b = go (bit a) (bit b)
  where
    go : (a % 2 ≡ 0) ⊎ (a % 2 ≡ 1) → (b % 2 ≡ 0) ⊎ (b % 2 ≡ 1) → P (a % 2) (b % 2)
    go (inl p) (inl q) = rw (p, q) x
    go (inl p) (inr q) = rw (p, q) y
    go (inr p) (inl q) = rw (p, q) z
    go (inr p) (inr q) = rw (p, q) w

differ-lt : (a b : ℕ) → differ (a % 2) (b % 2) < 2
differ-lt =
    by_digits (λ x y. differ x y < 2) (omega arith) (omega arith) (omega arith) (omega arith)

differ-differ : (a b : ℕ) → differ (differ (a % 2) (b % 2)) (b % 2) ≡ a % 2
differ-differ = by_digits (λ x y. differ (differ x y) y ≡ x) refl refl refl refl

differ_comm : (a b : ℕ) → differ (a % 2) (b % 2) ≡ differ (b % 2) (a % 2)
differ_comm = by_digits (λ x y. differ x y ≡ differ y x) refl refl refl refl

-- The quotient and the digit of a step.
half : (q r : ℕ) → r < 2 → ((q * 2 + r) / 2 ≡ q) × ((q * 2 + r) % 2 ≡ r)
half q r h = (omega arith, omega arith)

bit_xor-half :
    (a b : ℕ)
    → (bit_xor a b / 2 ≡ bit_xor (a / 2) (b / 2)) × (bit_xor a b % 2 ≡ differ (a % 2) (b % 2))
bit_xor-half a b =
    rw (bit_xor_step a b) (half (bit_xor (a / 2) (b / 2)) (differ (a % 2) (b % 2)) (differ-lt a b))

-- Fuel that is at least both numbers.
undo_fuel : (fuel a b : ℕ) → a ≤ fuel → b ≤ fuel → bit_xor (bit_xor a b) b ≡ a
undo_fuel zero zero zero p q = refl
undo_fuel zero zero (suc b) p q = absurd (omega arith)
undo_fuel zero (suc a) b p q = absurd (omega arith)
undo_fuel (suc fuel) a b p q =
    bit_xor_step (bit_xor a b) b
    ∙ rw
        (
          (bit_xor-half a b).0,
          (bit_xor-half a b).1,
          undo_fuel fuel (a / 2) (b / 2) (omega arith) (omega arith),
          differ-differ a b,
        )
        (omega arith)

undo : (a b : ℕ) → bit_xor (bit_xor a b) b ≡ a
undo a b = undo_fuel (a + b) a b (omega arith) (omega arith)

comm_fuel : (fuel a b : ℕ) → a ≤ fuel → b ≤ fuel → bit_xor a b ≡ bit_xor b a
comm_fuel zero zero zero p q = refl
comm_fuel zero zero (suc b) p q = absurd (omega arith)
comm_fuel zero (suc a) b p q = absurd (omega arith)
comm_fuel (suc fuel) a b p q = omega (
  arith,
  bit_xor_step a b,
  bit_xor_step b a,
  comm_fuel fuel (a / 2) (b / 2) (omega arith) (omega arith),
  differ_comm a b,
)

bit_xor_comm : (a b : ℕ) → bit_xor a b ≡ bit_xor b a
bit_xor_comm a b = comm_fuel (a + b) a b (omega arith) (omega arith)

pub bit_xor-injective : (a a' b : ℕ) → bit_xor a b ≡ bit_xor a' b → a ≡ a'
bit_xor-injective a a' b h = sym (undo a b) ∙ ap (λ x. bit_xor x b) h ∙ undo a' b

pub bit_xor-injective_right : (a b b' : ℕ) → bit_xor a b ≡ bit_xor a b' → b ≡ b'
bit_xor-injective_right a b b' h =
    bit_xor-injective b b' a (bit_xor_comm b a ∙ h ∙ bit_xor_comm a b')

pub bit_xor-lt : (n a b : ℕ) → a < 2 ^ n → b < 2 ^ n → bit_xor a b < 2 ^ n
bit_xor-lt zero zero zero p q = omega arith
bit_xor-lt zero zero (suc b) p q = absurd (omega arith)
bit_xor-lt zero (suc a) b p q = absurd (omega arith)
bit_xor-lt (suc n) a b p q = omega (
  arith,
  bit_xor_step a b,
  differ-lt a b,
  pow-suc 2 n,
  bit_xor-lt n (a / 2) (b / 2) (omega (arith, pow-suc 2 n)) (omega (arith, pow-suc 2 n)),
)
