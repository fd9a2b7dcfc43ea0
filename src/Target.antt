-- ===== src/Target.antt =====
-- src/cli/args.rs: where a sync stops, and how the flag's text is read.
pub mod Parse
use poulpy_eth_pir_demo.Base.{ℕ, ◌^◌, ◌||◌, Option, none, some, if◌then◌else◌}
use poulpy_eth_pir_demo.Base.Equality.{◌==◌, byte_list_eq}
use poulpy_eth_pir_demo.Base.Run.{Run, pure}
use poulpy_eth_pir_demo.Text.{Text, ascii, trim, to_ascii_lowercase, parse_number}
use poulpy_eth_pir_demo.Chain.Node.{Node, Fault, of_rpc}
use poulpy_eth_pir_demo.Chain.Tip.{finalized_block}

pub data Target : Type 0 where
  finalized latest : Target
  number : ℕ → Target

unfoldable pub number_of : Option ℕ → Option Target
number_of none = none
number_of (some n) = some (number n)

-- `none` is an error.
unfoldable pub from_str : Text → Option Target
from_str s =
    let text = to_ascii_lowercase (trim s) in
    if text == ascii "finalized"
    then some finalized
    else if text == ascii "latest" || text == ascii "head"
    then some latest
    else number_of (parse_number (2 ^ 64) text)

module _ (node : Node) where
  open node use {World, get_block_number}

  unfoldable pub resolve_target : Target → Run World Fault ℕ
  resolve_target finalized = finalized_block node
  resolve_target latest = λ w. of_rpc (get_block_number w)
  resolve_target (number n) = pure n
