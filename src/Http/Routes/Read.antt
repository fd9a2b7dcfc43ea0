-- ===== src/Http/Routes/Read.antt =====
-- What the status page says can be read off it.
use poulpy_eth_pir_demo.Base.{
  ℕ, inl, inr, ◌≡◌, ◌≢◌, refl, ap, sym, subst, ◌∙◌, Option, none, some, List, [], ◌∷◌, length, All,
  append_assoc, arith,
}
use poulpy_eth_pir_demo.Text.{Text, ascii, to_decimal}
use poulpy_eth_pir_demo.Text.Decimal.{
  IsDigit, to_decimal-IsDigit, to_decimal-injective, to_decimal_without,
}
use poulpy_eth_pir_demo.Text.Filled.{Gap, fill, Fits, fill-injective}
use poulpy_eth_pir_demo.Progress
use poulpy_eth_pir_demo.Progress.{Progress, Sample}
use poulpy_eth_pir_demo.Publish.Directory.{Directory}
use poulpy_eth_pir_demo.Http.Routes.{age_text, status_body, status}

abbrev gaps : List Gap
gaps =
    (ascii "{\"version\":", b',')
    ∷ (ascii "\"len\":", b',')
    ∷ (ascii "\"mphfLen\":", b',')
    ∷ (ascii "\"tailLen\":", b',')
    ∷ (ascii "\"directoryBytes\":", b',')
    ∷ (ascii "\"mphfBytes\":", b',')
    ∷ (ascii "\"tailBytes\":", b',')
    ∷ (ascii "\"cursor\":", b',')
    ∷ (ascii "\"tip\":", b',')
    ∷ (ascii "\"lagBlocks\":", b',')
    ∷ (ascii "\"lastSyncAgeSecs\":", b'}')
    ∷ []

abbrev values : Directory → Sample → List Text
values dir chain =
    to_decimal dir.version
    ∷ to_decimal dir.len
    ∷ to_decimal dir.mphf_len
    ∷ to_decimal dir.tail_len
    ∷ to_decimal (length dir.full)
    ∷ to_decimal dir.mphf_bytes
    ∷ to_decimal dir.tail_bytes
    ∷ to_decimal chain.cursor
    ∷ to_decimal chain.tip
    ∷ to_decimal chain.lag_blocks
    ∷ age_text chain.age_secs
    ∷ []

status_body_filled :
    (dir : Directory) (chain : Sample) → status_body dir chain ≡ fill [] gaps (values dir chain)
unfolding status_body
status_body_filled dir chain = simp append_assoc

age_without : (age : Option ℕ) → All (λ c. c ≢ b'}') (age_text age)
unfolding age_text
age_without none = omega arith
age_without (some n) = to_decimal_without b'}' n (inr (omega arith))

no_number : (n : ℕ) → ascii "null" ≢ to_decimal n
no_number n e =
    let digits : All IsDigit (ascii "null") =
      subst (λ (t : Text). All IsDigit t) (sym e) (to_decimal-IsDigit n) in
    omega (arith, digits.0)

age_text-injective : (a b : Option ℕ) → age_text a ≡ age_text b → a ≡ b
unfolding age_text
age_text-injective none none e = refl
age_text-injective none (some n) e = absurd (no_number n e)
age_text-injective (some n) none e = absurd (no_number n (sym e))
age_text-injective (some n) (some m) e = ap some (to_decimal-injective n m e)

status_Fits : (dir : Directory) (chain : Sample) → Fits gaps (values dir chain)
status_Fits dir chain =
    let age = age_without chain.age_secs in
    let number = λ (n : ℕ). to_decimal_without b',' n (inl (omega arith)) in
    let version = number dir.version in
    let len = number dir.len in
    let mphf_len = number dir.mphf_len in
    let tail_len = number dir.tail_len in
    let bytes = number (length dir.full) in
    let mphf_bytes = number dir.mphf_bytes in
    let tail_bytes = number dir.tail_bytes in
    let cursor = number chain.cursor in
    let tip = number chain.tip in
    let lag = number chain.lag_blocks in
    (
      version,
      (
        len,
        (
          mphf_len,
          (tail_len, (bytes, (mphf_bytes, (tail_bytes, (cursor, (tip, (lag, (age, tt)))))))),
        ),
      ),
    )

-- What a monitor learns of a directory.
abbrev pub sizes : Directory → List ℕ
sizes dir = dir.version ∷ dir.len ∷ dir.mphf_len ∷ dir.tail_len ∷ length dir.full ∷ []

same_sample : (d e : Directory) (s t : Sample) → values d s ≡ values e t → s ≡ t
same_sample d e s t same =
    let cursor : s.cursor ≡ t.cursor = to_decimal-injective _ _ (cc same) in
    let tip : s.tip ≡ t.tip = to_decimal-injective _ _ (cc same) in
    let lag : s.lag_blocks ≡ t.lag_blocks = to_decimal-injective _ _ (cc same) in
    let age : s.age_secs ≡ t.age_secs = age_text-injective _ _ (cc same) in
    λ k. record { cursor = cursor k; tip = tip k; lag_blocks = lag k; age_secs = age k }

same_sizes : (d e : Directory) (s t : Sample) → values d s ≡ values e t → sizes d ≡ sizes e
same_sizes d e s t same =
    let version : d.version ≡ e.version = to_decimal-injective _ _ (cc same) in
    let len : d.len ≡ e.len = to_decimal-injective _ _ (cc same) in
    let mphf_len : d.mphf_len ≡ e.mphf_len = to_decimal-injective _ _ (cc same) in
    let tail_len : d.tail_len ≡ e.tail_len = to_decimal-injective _ _ (cc same) in
    let bytes : length d.full ≡ length e.full = to_decimal-injective _ _ (cc same) in
    cc (version, len, mphf_len, tail_len, bytes)

-- Two status pages that are alike, at whatever times, tell of the same cursor, tip, lag and age,
-- unknown or not, and of directories with the same version, the same numbers of addresses, addresses
-- outside the tail and in it, and the same number of bytes.
pub status-injective :
    (now now' : ℕ) (p p' : Progress) (d d' : Directory)
    → (status now p (some d)).body ≡ (status now' p' (some d')).body
    → (Progress.sample now p ≡ Progress.sample now' p') × (sizes d ≡ sizes d')
unfolding status
status-injective now now' p p' d d' e =
    let s = Progress.sample now p in
    let s' = Progress.sample now' p' in
    let same : values d s ≡ values d' s' =
      fill-injective [] gaps _ _ (status_Fits d s) (status_Fits d' s')
        (sym (status_body_filled d s) ∙ e ∙ status_body_filled d' s') in
    (same_sample d d' s s' same, same_sizes d d' s s' same)
