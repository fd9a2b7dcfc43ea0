-- ===== src/Publish/Directory.antt =====
-- src/directory.rs: the keyword directory that the HTTP layer serves. Parsing the blob and writing a
-- tail belong to the poulpy-pir crate: `Parsed` is what the program asks of a parsed directory.
use poulpy_eth_pir_demo.Base.{ℕ, ◌+◌, ◌-◌, ◌*◌, ◌^◌, min, Option, none, some, List, length}

-- `usize` has 64 bits, and `saturating_add` and `saturating_mul` stop at the largest.
abbrev pub saturate : ℕ → ℕ
saturate n = min n (2 ^ 64 - 1)

unfoldable pub mphf_bytes : ℕ → ℕ → ℕ
mphf_bytes full_bytes tail_len = full_bytes - saturate (24 + saturate (20 * tail_len))

unfoldable pub tail_bytes : ℕ → ℕ
tail_bytes tail_len = saturate (48 + saturate (20 * tail_len))

pub record Parsed : Type 0 where
  pub version : ℕ
  pub len : ℕ
  pub mphf_len : ℕ
  pub delta_len : ℕ

pub record Directory : Type 0 where
  pub version : ℕ
  pub len : ℕ
  pub mphf_len : ℕ
  pub mphf_bytes : ℕ
  pub tail_len : ℕ
  pub tail_bytes : ℕ
  pub full : List ℕ
  pub parsed : Parsed

unfoldable pub directory_of : List ℕ → Parsed → Directory
directory_of full parsed = record {
  version = parsed.version;
  len = parsed.len;
  mphf_len = parsed.mphf_len;
  mphf_bytes = mphf_bytes (length full) parsed.delta_len;
  tail_len = parsed.delta_len;
  tail_bytes = tail_bytes parsed.delta_len;
  full = full;
  parsed = parsed;
}

unfoldable pub from_blob : (List ℕ → Option Parsed) → List ℕ → Option Directory
from_blob read_from full = elim (read_from full) [
  | none ↦ none
  | some parsed ↦ some (directory_of full parsed)
]
