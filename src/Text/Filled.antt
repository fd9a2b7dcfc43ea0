-- ===== src/Text/Filled.antt =====
-- A text with gaps, each ended by a character that what stands in it does not have: what was filled
-- in can be read off.
use poulpy_eth_pir_demo.Base.{ℕ, ◌≡◌, ◌≢◌, refl, sym, ap, ◌∙◌, some, List, [], ◌∷◌, ◌++◌, All}
use poulpy_eth_pir_demo.Text.{Text, split_once}
use poulpy_eth_pir_demo.Text.Decimal.{split_once-append}

-- What stands before a gap, and the character behind it.
abbrev pub Gap : Type 0
Gap = Text × ℕ

abbrev pub fill : Text → List Gap → List Text → Text
fill ends [] values = ends
fill ends ((lead, sep) ∷ gaps) [] = lead
fill ends ((lead, sep) ∷ gaps) (value ∷ values) = lead ++ (value ++ (sep ∷ fill ends gaps values))

-- There is a value for each gap, without the character behind it.
abbrev pub Fits : List Gap → List Text → Type 0
Fits [] [] = Unit
Fits [] (value ∷ values) = ⊥
Fits ((lead, sep) ∷ gaps) [] = ⊥
Fits ((lead, sep) ∷ gaps) (value ∷ values) = All (λ c. c ≢ sep) value × Fits gaps values

behind : (front : Text) {x y : Text} → front ++ x ≡ front ++ y → x ≡ y
behind [] e = e
behind (c ∷ front) e = behind front (cc e)

cut :
    (sep : ℕ) (x y : Text) {r s : Text}
    → All (λ c. c ≢ sep) x
    → All (λ c. c ≢ sep) y
    → x ++ (sep ∷ r) ≡ y ++ (sep ∷ s)
    → (x ≡ y) × (r ≡ s)
cut sep x y {r} {s} hx hy e =
    let split : (x, some r) ≡ (y, some s) =
      sym (split_once-append sep x r hx) ∙ ap (split_once sep) e ∙ split_once-append sep y s hy in
    (ap (λ p. p.0) split, cc split)

-- Texts that read the same were filled with the same values.
pub fill-injective :
    (ends : Text) (gaps : List Gap) (values others : List Text)
    → Fits gaps values
    → Fits gaps others
    → fill ends gaps values ≡ fill ends gaps others
    → values ≡ others
fill-injective ends [] [] [] f g e = refl
fill-injective ends [] [] (w ∷ others) f g e = absurd g
fill-injective ends [] (v ∷ values) others f g e = absurd f
fill-injective ends ((lead, sep) ∷ gaps) [] others f g e = absurd f
fill-injective ends ((lead, sep) ∷ gaps) (v ∷ values) [] f g e = absurd g
fill-injective ends ((lead, sep) ∷ gaps) (v ∷ values) (w ∷ others) (f, fs) (g, gs) e =
    let (same, rest) = cut sep v w f g (behind lead e) in
    let all_same = fill-injective ends gaps values others fs gs rest in cc (same, all_same)
