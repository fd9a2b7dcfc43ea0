-- ===== src/Chain/Tip.antt =====
-- src/chain/tip.rs: the block that a pass aims at.
use poulpy_eth_pir_demo.Base.{ℕ, ◌-◌, ◌^◌, Bool, true, false, Option, none, some, if◌then◌else◌}
use poulpy_eth_pir_demo.Base.Equality.{◌==◌, byte_list_eq}
use poulpy_eth_pir_demo.Text.{Text, ascii, trim, to_ascii_lowercase, parse_number}
use poulpy_eth_pir_demo.Base.Run.{Run, pure, fail, ◌>>=◌}
use poulpy_eth_pir_demo.Tokens.{Hash}
use poulpy_eth_pir_demo.Chain.Node.{Node, Fault, of_rpc, no_finalized_block}

pub data Tip : Type 0 where
  finalized : Tip
  confirmations : ℕ → Tip

unfoldable pub is_reorgable : Tip → Bool
is_reorgable finalized = false
is_reorgable (confirmations n) = true

unfoldable pub confirmations_of : Option ℕ → Option Tip
confirmations_of none = none
confirmations_of (some n) = some (confirmations n)

-- `none` is an error.
unfoldable pub from_str : Text → Option Tip
from_str s =
    let text = to_ascii_lowercase (trim s) in
    if text == ascii "finalized"
    then some finalized
    else confirmations_of (parse_number (2 ^ 64) text)

module _ (node : Node) where
  open node use {World, finalized_number, get_block_number, hash_at}

  unfoldable pub or_no_block : Option ℕ → Run World Fault ℕ
  or_no_block none = fail no_finalized_block
  or_no_block (some n) = pure n

  unfoldable pub finalized_block : Run World Fault ℕ
  finalized_block = do block ← λ w. of_rpc (finalized_number w); or_no_block block

  -- `-` stops at 0, as `saturating_sub` does.
  unfoldable pub resolve : Tip → Run World Fault ℕ
  resolve finalized = finalized_block
  resolve (confirmations n) = do head ← λ w. of_rpc (get_block_number w); pure (head - n)

  unfoldable pub block_hash : ℕ → Run World Fault (Option Hash)
  block_hash number w = of_rpc (hash_at number w)
