-- ===== src/Record/RoundTrip.antt =====
-- A record read back from its payload is the record that was written.
use poulpy_eth_pir_demo.Base.{
  ℕ, ◌+◌, ◌-◌, ◌≤◌, ◌≡◌, refl, sym, ap, ◌∙◌, List, [], ◌++◌, length, replicate, drop, arith, All,
  All-append, append_assoc, length-append, length-replicate, drop-append,
}
use poulpy_eth_pir_demo.Base.Bytes.{
  IsByte, IsU32, IsU128, to_le_bytes, to_le_bytes-IsByte, from_le_bytes,
}
use poulpy_eth_pir_demo.Base.Bytes.{length-to_le_bytes, from_le_bytes-to_le_bytes}
use poulpy_eth_pir_demo.Base.Slices.{slice, slice_at, copy_into, copy_into_blank}
use poulpy_eth_pir_demo.Record.{Entry, encode, decode, spare_at}

-- Each field fits the width that the source gives it.
pub record IsSized (e : Entry) : Type 0 where
  pub usdt_fits : IsU128 e.usdt
  pub usdt_block_fits : IsU32 e.usdt_block
  pub usdc_fits : IsU128 e.usdc
  pub usdc_block_fits : IsU32 e.usdc_block

-- The four fields one after the other.
pub fields : Entry → List ℕ
fields e =
    to_le_bytes 16 e.usdt
    ++ (to_le_bytes 4 e.usdt_block ++ (to_le_bytes 16 e.usdc ++ to_le_bytes 4 e.usdc_block))

pub fields-IsByte : (e : Entry) → All IsByte (fields e)
unfolding fields
fields-IsByte e = All-append IsByte _ _ (to_le_bytes-IsByte 16 e.usdt) (
    All-append IsByte _ _ (to_le_bytes-IsByte 4 e.usdt_block)
      (All-append IsByte _ _ (to_le_bytes-IsByte 16 e.usdc) (to_le_bytes-IsByte 4 e.usdc_block)))

-- A buffer of four fields behind a front part.
module _ (pre a b c d : List ℕ) (k : ℕ) (at : k ≡ length pre) (a_len : length a ≡ 16)
    (b_len : length b ≡ 4) (c_len : length c ≡ 16) (d_len : length d ≡ 4) where
  lens_ab : length (pre ++ a) ≡ k + 16
  lens_ab = omega (arith, length-append pre a)

  lens_abc : length ((pre ++ a) ++ b) ≡ k + 20
  lens_abc = omega (arith, length-append (pre ++ a) b, lens_ab)

  lens_abcd : length (((pre ++ a) ++ b) ++ c) ≡ k + 36
  lens_abcd = omega (arith, length-append ((pre ++ a) ++ b) c, lens_abc)

  copy_four :
      (n : ℕ)
      → copy_into
          (k + 36)
          d
          (copy_into (k + 20) c (copy_into (k + 16) b (copy_into k a (pre ++ replicate n 0))))
        ≡ pre ++ ((a ++ (b ++ (c ++ d))) ++ replicate (n - 40) 0)
  copy_four n =
      rw
        (
          copy_into_blank pre a k n 0 at,
          copy_into_blank (pre ++ a) b (k + 16) (n - length a) 0 (sym lens_ab),
          copy_into_blank ((pre ++ a) ++ b) c (k + 20) (n - length a - length b) 0 (sym lens_abc),
          copy_into_blank (((pre ++ a) ++ b) ++ c) d (k + 36) (n - length a - length b - length c) 0
              (sym lens_abcd),
        )
        (simp (append_assoc, blank))
    where
      blank : n - length a - length b - length c - length d ≡ n - 40
      blank = omega arith

  slice_four :
      (post : List ℕ)
      → let buf = pre ++ ((a ++ (b ++ (c ++ d))) ++ post) in
        (slice k (k + 16) buf ≡ a)
        × (slice (k + 16) (k + 20) buf ≡ b)
        × (slice (k + 20) (k + 36) buf ≡ c)
        × (slice (k + 36) (k + 40) buf ≡ d)
  slice_four post = (
    ap (slice k (k + 16)) (simp append_assoc)
        ∙ slice_at pre a (b ++ (c ++ (d ++ post))) k (k + 16) at (omega arith),
    ap (slice (k + 16) (k + 20)) (simp append_assoc)
        ∙ slice_at (pre ++ a) b (c ++ (d ++ post)) (k + 16) (k + 20) (sym lens_ab) (omega arith),
    ap (slice (k + 20) (k + 36)) (simp append_assoc)
        ∙ slice_at ((pre ++ a) ++ b) c (d ++ post) (k + 20) (k + 36) (sym lens_abc) (omega arith),
    ap (slice (k + 36) (k + 40)) (simp append_assoc)
        ∙ slice_at (((pre ++ a) ++ b) ++ c) d post (k + 36) (k + 40) (sym lens_abcd) (omega arith),
  )

module _ (e : Entry) where
  -- The four fields copied into a blank buffer behind a front part.
  pub copy-fields :
      (pre : List ℕ) (k n : ℕ)
      → k ≡ length pre
      → copy_into (k + 36) (to_le_bytes 4 e.usdc_block) (
          copy_into (k + 20) (to_le_bytes 16 e.usdc) (
            copy_into
              (k + 16)
              (to_le_bytes 4 e.usdt_block)
              (copy_into k (to_le_bytes 16 e.usdt) (pre ++ replicate n 0))))
        ≡ pre ++ (fields e ++ replicate (n - 40) 0)
  unfolding fields
  copy-fields pre k n at =
      copy_four pre _ _ _ _ k at (length-to_le_bytes 16 e.usdt) (length-to_le_bytes 4 e.usdt_block)
        (length-to_le_bytes 16 e.usdc) (length-to_le_bytes 4 e.usdc_block) n

  -- A payload is the four fields and a blank tail.
  encode-fields : (n : ℕ) → encode n e ≡ fields e ++ replicate (n - 40) 0
  unfolding encode
  encode-fields n = copy-fields [] 0 n refl

  -- The four fields read back from a buffer that holds them behind a front part.
  pub entry_at-fields :
      (pre post : List ℕ) (k : ℕ)
      → k ≡ length pre
      → IsSized e
      → let buf = pre ++ (fields e ++ post) in
        (from_le_bytes (slice k (k + 16) buf) ≡ e.usdt)
        × (from_le_bytes (slice (k + 16) (k + 20) buf) ≡ e.usdt_block)
        × (from_le_bytes (slice (k + 20) (k + 36) buf) ≡ e.usdc)
        × (from_le_bytes (slice (k + 36) (k + 40) buf) ≡ e.usdc_block)
  unfolding fields
  entry_at-fields pre post k at sized =
      let (p, q, r, s) =
        slice_four pre (to_le_bytes 16 e.usdt) (to_le_bytes 4 e.usdt_block) (to_le_bytes 16 e.usdc)
          (to_le_bytes 4 e.usdc_block) k at (length-to_le_bytes 16 e.usdt)
          (length-to_le_bytes 4 e.usdt_block) (length-to_le_bytes 16 e.usdc)
          (length-to_le_bytes 4 e.usdc_block) post in
      (
        ap from_le_bytes p ∙ from_le_bytes-to_le_bytes 16 e.usdt (omega arith),
        ap from_le_bytes q ∙ from_le_bytes-to_le_bytes 4 e.usdt_block (omega arith),
        ap from_le_bytes r ∙ from_le_bytes-to_le_bytes 16 e.usdc (omega arith),
        ap from_le_bytes s ∙ from_le_bytes-to_le_bytes 4 e.usdc_block (omega arith),
      )

  pub length-fields : length (fields e) ≡ 40
  unfolding fields
  length-fields = simp (length-append, length-to_le_bytes)

  decode-fields : (post : List ℕ) → IsSized e → decode (fields e ++ post) ≡ e
  unfolding decode
  decode-fields post sized = let (p, q, r, s) = entry_at-fields [] post 0 refl sized in ground arith

  -- A record whose fields fit their widths is read back from its payload as it was. The payload has
  -- the size asked for, of at least the fields' size, and what stands behind the fields is zero.
  pub decode-encode :
      (payload_bytes : ℕ)
      → spare_at ≤ payload_bytes
      → IsSized e
      → (decode (encode payload_bytes e) ≡ e)
        × (length (encode payload_bytes e) ≡ payload_bytes)
        × (drop spare_at (encode payload_bytes e) ≡ replicate (payload_bytes - spare_at) 0)
  decode-encode n fits sized =
      let blank : List ℕ = replicate (n - 40) 0 in
      rw (encode-fields n) (
        decode-fields blank sized,
        omega (
          arith,
          length-append (fields e) blank,
          length-fields,
          length-replicate {A = ℕ} (n - 40) 0,
        ),
        drop-append (fields e) blank 40 (sym length-fields),
      )
