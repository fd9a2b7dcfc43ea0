-- ===== src/Chain/Touch.antt =====
-- src/chain/events.rs: the last block, per token, in which an address appeared in a log.
use poulpy_eth_pir_demo.Base.{ℕ, max, Option, none, some, if◌then◌else◌}
use poulpy_eth_pir_demo.Base.Equality.{◌==◌, byte_list_eq}
use poulpy_eth_pir_demo.Tokens.{Address, usdt_token, usdc_token}

pub record Touch : Type 0 where
  pub usdt : Option ℕ
  pub usdc : Option ℕ

-- `Touch::default()`
abbrev pub no_touch : Touch
no_touch = record { usdt = none; usdc = none }

unfoldable pub max_block : Option ℕ → Option ℕ → Option ℕ
max_block (some a) (some b) = some (max a b)
max_block (some a) none = some a
max_block none b = b

unfoldable pub see : Address → Option ℕ → Touch → Touch
see token block t =
    if token == usdt_token
    then record t { usdt = max_block t.usdt block }
    else if token == usdc_token
    then record t { usdc = max_block t.usdc block }
    else t
