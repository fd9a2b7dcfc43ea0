-- ===== src/Chain/Events/Words.antt =====
-- Which words hold an address, and which addresses a log names.
use poulpy_eth_pir_demo.Base.{
  ℕ, false, ◌≡◌, sym, ap, ◌∙◌, some, List, ◌++◌, length, take, drop, replicate, arith,
  take-append-drop, length-drop,
}
use poulpy_eth_pir_demo.Base.Equality.{◌==◌, byte_list_eq, bytes_eq, bytes_eq_iff}
use poulpy_eth_pir_demo.Tokens.{Address}
use poulpy_eth_pir_demo.Chain.Events.{addr_from_word}

-- An address padded to a word on its left.
unfoldable pub word_of : Address → List ℕ
word_of a = replicate 12 0 ++ a

-- A 20-byte address that is not the zero address.
pub record IsHolder (a : Address) : Type 0 where
  pub size : length a ≡ 20
  pub nonzero : (a == replicate 20 0) ≡ false

pub addr_from_word-word_of : (a : Address) → IsHolder a → addr_from_word (word_of a) ≡ some a
unfolding addr_from_word word_of bytes_eq
addr_from_word-word_of a h = ground arith

word_of_addr : (w : List ℕ) → take 12 w ≡ replicate 12 0 → w ≡ word_of (drop 12 w)
unfolding word_of
word_of_addr w h = sym (take-append-drop 12 w) ∙ ap (λ (p : List ℕ). p ++ drop 12 w) h

pub word_of-injective : (a b : Address) → word_of a ≡ word_of b → a ≡ b
unfolding word_of
word_of-injective a b h = ap (drop 12) h

-- What a word that is read as an address passed.
addr_from_word_tests :
    (w : List ℕ) (a : Address)
    → addr_from_word w ≡ some a
    → (length w ≡ 32)
      × (take 12 w ≡ replicate 12 0)
      × (drop 12 w ≡ a)
      × ((drop 12 w == replicate 20 0) ≡ false)
unfolding addr_from_word
addr_from_word_tests w a h = ground (arith, bytes_eq_iff (take 12 w) (replicate 12 0))

-- Only such a word of a holder is read as an address, and it is read as that one.
pub addr_from_word-some :
    (w : List ℕ) (a : Address) → addr_from_word w ≡ some a → IsHolder a × (w ≡ word_of a)
addr_from_word-some w a h =
    let (size, blank, here, nonzero) = addr_from_word_tests w a h in
    (
      record {
        size = rw (← here) (omega (arith, length-drop 12 w, size));
        nonzero = rw (← here) nonzero;
      },
      word_of_addr w blank ∙ ap word_of here,
    )
