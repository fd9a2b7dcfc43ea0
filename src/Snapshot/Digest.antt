-- ===== src/Snapshot/Digest.antt =====
-- The digest of a snapshot file: eating a byte loses nothing, so a byte that differs is never lost.
use Prim.Native.Nat.{bit_xor}
use poulpy_eth_pir_demo.Base.{ℕ, ◌*◌, ◌%◌, ◌^◌, ◌≡◌, refl, List, [], ◌∷◌, ◌++◌, arith, All}
use poulpy_eth_pir_demo.Base.Bytes.{IsByte, IsU64}
use poulpy_eth_pir_demo.Base.Xor.{bit_xor-injective, bit_xor-injective_right, bit_xor-lt}
use poulpy_eth_pir_demo.Snapshot.{eat}

-- The prime of the digest has an inverse among the 64-bit numbers.
mul-injective :
    (x y : ℕ)
    → IsU64 x
    → IsU64 y
    → x * 0x100_0000_01b3 % 2 ^ 64 ≡ y * 0x100_0000_01b3 % 2 ^ 64
    → x ≡ y
mul-injective x y p q h = omega arith

eat_byte-injective :
    (h h' b : ℕ)
    → IsU64 h
    → IsU64 h'
    → IsByte b
    → bit_xor h b * 0x100_0000_01b3 % 2 ^ 64 ≡ bit_xor h' b * 0x100_0000_01b3 % 2 ^ 64
    → h ≡ h'
eat_byte-injective h h' b p q small e =
    bit_xor-injective h h' b
      (mul-injective _ _ (bit_xor-lt 64 h b p (omega arith)) (bit_xor-lt 64 h' b q (omega arith)) e)

pub eat-append : (xs ys : List ℕ) (h : ℕ) → eat (xs ++ ys) h ≡ eat ys (eat xs h)
unfolding eat
eat-append [] ys h = refl
eat-append (b ∷ xs) ys h = eat-append xs ys _

-- `h % 2 ^ 64` is what the digest ends in.
pub eat-IsU64 : (bs : List ℕ) (h : ℕ) → IsU64 h → IsU64 (eat bs h)
unfolding eat
eat-IsU64 [] h fits = fits
eat-IsU64 (b ∷ bs) h fits = eat-IsU64 bs _ (omega arith)

-- Two digests that are the same after the same bytes were the same before.
pub eat-injective :
    (bs : List ℕ) (h h' : ℕ) → All IsByte bs → IsU64 h → IsU64 h' → eat bs h ≡ eat bs h' → h ≡ h'
unfolding eat
eat-injective [] h h' bytes p q e = e
eat-injective (b ∷ bs) h h' (small, bytes) p q e =
    eat_byte-injective h h' b p q small (eat-injective bs _ _ bytes (omega arith) (omega arith) e)

-- A digest tells apart byte strings that differ in one byte.
pub eat_one-injective :
    (front back : List ℕ) (b b' h : ℕ)
    → All IsByte back
    → IsByte b
    → IsByte b'
    → IsU64 h
    → eat (front ++ (b ∷ back)) h ≡ eat (front ++ (b' ∷ back)) h
    → b ≡ b'
unfolding eat
eat_one-injective [] back b b' h bytes small small' p e = bit_xor-injective_right h b b' (
    mul-injective _ _ (bit_xor-lt 64 h b p (omega arith)) (bit_xor-lt 64 h b' p (omega arith))
      (eat-injective back _ _ bytes (omega arith) (omega arith) e))
eat_one-injective (x ∷ front) back b b' h bytes small small' p e =
    eat_one-injective front back b b' _ bytes small small' (omega arith) e
