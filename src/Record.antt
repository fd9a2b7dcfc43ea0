-- ===== src/Record.antt =====
-- crates/record/src/lib.rs: one holder's record, and its payload in the PIR database.
-- The payload's size belongs to the eth-pir crate, so it is a parameter; the source asserts at
-- compile time that the fields fit (`SPARE <= PAYLOAD_BYTES`).
pub mod RoundTrip
pub mod Units
use poulpy_eth_pir_demo.Base.{ℕ, ◌+◌, ◌/◌, ◌%◌, ◌^◌, Bool, ◌&&◌, List, ◌∷◌, ◌++◌, nat_eq, replicate}
use poulpy_eth_pir_demo.Text.{Text, to_decimal, to_decimal_padded}
use poulpy_eth_pir_demo.Base.Bytes.{to_le_bytes, from_le_bytes}
use poulpy_eth_pir_demo.Base.Slices.{slice, copy_into}

pub record Entry : Type 0 where
  pub usdt : ℕ
  pub usdt_block : ℕ
  pub usdc : ℕ
  pub usdc_block : ℕ

-- `Entry::default()`
abbrev pub no_entry : Entry
no_entry = record { usdt = 0; usdt_block = 0; usdc = 0; usdc_block = 0 }

unfoldable pub is_zero : Entry → Bool
is_zero e = nat_eq e.usdt 0 && nat_eq e.usdc 0

abbrev pub usdt_at : ℕ
usdt_at = 0

abbrev pub usdt_block_at : ℕ
usdt_block_at = usdt_at + 16

abbrev pub usdc_at : ℕ
usdc_at = usdt_block_at + 4

abbrev pub usdc_block_at : ℕ
usdc_block_at = usdc_at + 16

abbrev pub spare_at : ℕ
spare_at = usdc_block_at + 4

unfoldable pub encode : ℕ → Entry → List ℕ
encode payload_bytes e =
    let p = replicate payload_bytes 0 in
    let p = copy_into usdt_at (to_le_bytes 16 e.usdt) p in
    let p = copy_into usdt_block_at (to_le_bytes 4 e.usdt_block) p in
    let p = copy_into usdc_at (to_le_bytes 16 e.usdc) p in
    copy_into usdc_block_at (to_le_bytes 4 e.usdc_block) p

unfoldable pub decode : List ℕ → Entry
decode p = record {
  usdt = from_le_bytes (slice usdt_at usdt_block_at p);
  usdt_block = from_le_bytes (slice usdt_block_at usdc_at p);
  usdc = from_le_bytes (slice usdc_at usdc_block_at p);
  usdc_block = from_le_bytes (slice usdc_block_at spare_at p);
}

abbrev pub decimals : ℕ
decimals = 6

-- A balance in base units as a decimal text, such as 1.234567 for 1234567.
unfoldable pub format_units : ℕ → Text
format_units v =
    let scale = 10 ^ decimals in to_decimal (v / scale) ++ (b'.' ∷ to_decimal_padded 6 (v % scale))
