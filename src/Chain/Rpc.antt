-- ===== src/Chain/Rpc.antt =====
-- src/chain/rpc.rs: balances read in batches through Multicall3.
pub mod Exact
use poulpy_eth_pir_demo.Base.{
  ℕ, zero, suc, ◌+◌, ◌*◌, ◌^◌, true, List, [], ◌∷◌, ◌++◌, length, take, drop, nat_eq, ltb, leb, not,
  if◌then◌else◌,
}
use poulpy_eth_pir_demo.Base.Equality.{byte_list_eq}
use poulpy_eth_pir_demo.Base.Table
use poulpy_eth_pir_demo.Base.Table.{Table}
use poulpy_eth_pir_demo.Base.Run.{Result, ok, err, and_then, Run, lift, pure, fail, ◌>>=◌}
use poulpy_eth_pir_demo.Tokens.{
  Address, usdt_token, tokens, mainnet_chain_id, multicall_deploy_block,
}
use poulpy_eth_pir_demo.Balances.{Reading}
use poulpy_eth_pir_demo.Chain.Node.{
  Node, Fault, Call, CallResult, of_rpc, result_count, balance_size, balance_overflow, wrong_chain,
  before_multicall,
}

abbrev pub calls_per_multicall : ℕ
calls_per_multicall = 800

-- `CALLS_PER_MULTICALL / TOKENS.len()`
abbrev pub addresses_per_multicall : ℕ
addresses_per_multicall = 400

-- `U256::from_be_slice`
unfoldable pub from_be_bytes : ℕ → List ℕ → ℕ
from_be_bytes acc [] = acc
from_be_bytes acc (b ∷ bs) = from_be_bytes (acc * 256 + b) bs

unfoldable pub decode_balance : CallResult → Result Fault ℕ
decode_balance r =
    if not r.success
    then ok 0
    else if not (nat_eq (length r.return_data) 32)
    then err balance_size
    else let v = from_be_bytes 0 r.return_data in
      if ltb v (2 ^ 128) then ok v else err balance_overflow

-- `zip` of the addresses with the results in pairs; a pair that is missing ends the loop.
unfoldable pub insert_pairs :
    Table Address Reading → List Address → List CallResult → Result Fault (Table Address Reading)
insert_pairs out (addr ∷ rest) (usdt ∷ usdc ∷ results) = and_then (decode_balance usdt) (λ a.
    and_then (decode_balance usdc)
      (λ b. insert_pairs (Table.insert addr (record { usdt = a; usdc = b }) out) rest results))
insert_pairs out _ _ = ok out

unfoldable pub insert_balance_results :
    Table Address Reading → List Address → List CallResult → Result Fault (Table Address Reading)
insert_balance_results out chunk results =
    if nat_eq (length results) (length chunk * 2)
    then insert_pairs out chunk results
    else err result_count

-- `chunks(n)` of the standard library. Each round takes an address at least, so as many rounds as
-- there are addresses are enough.
unfoldable pub chunks_loop : ℕ → ℕ → List Address → List (List Address)
chunks_loop fuel n [] = []
chunks_loop zero n (a ∷ rest) = []
chunks_loop (suc fuel) n (a ∷ rest) = take n (a ∷ rest) ∷ chunks_loop fuel n (drop n (a ∷ rest))

unfoldable pub chunks : ℕ → List Address → List (List Address)
chunks n addrs = chunks_loop (length addrs) n addrs

module _ (node : Node) where
  open node use {World, balance_of_call, aggregate, owner, get_chain_id}

  -- The calls of one owner, in the order of the tokens.
  unfoldable pub owner_calls : Address → List Address → List Call
  owner_calls holder [] = []
  owner_calls holder (target ∷ rest) =
      record { target = target; allow_failure = true; call_data = balance_of_call holder }
      ∷ owner_calls holder rest

  unfoldable pub balance_calls : List Address → List Call
  balance_calls [] = []
  balance_calls (holder ∷ rest) = owner_calls holder tokens ++ balance_calls rest

  unfoldable pub usdt_owner : ℕ → Run World Fault Address
  usdt_owner block w = of_rpc (owner usdt_token block w)

  unfoldable pub call_balance_chunk : List Address → ℕ → Run World Fault (List CallResult)
  call_balance_chunk chunk block w = of_rpc (aggregate (balance_calls chunk) block w)

  unfoldable pub read_chunks :
      Table Address Reading → List (List Address) → ℕ → Run World Fault (Table Address Reading)
  read_chunks out [] block = pure out
  read_chunks out (chunk ∷ rest) block = do
    results ← call_balance_chunk chunk block
    out' ← lift (insert_balance_results out chunk results)
    read_chunks out' rest block

  unfoldable pub read_balances : List Address → ℕ → Run World Fault (Table Address Reading)
  read_balances addrs block = read_chunks [] (chunks addresses_per_multicall addrs) block

  unfoldable pub ensure_mainnet : Run World Fault (Unit {0})
  ensure_mainnet = do
    id ← λ w. of_rpc (get_chain_id w)
    if nat_eq id mainnet_chain_id then pure tt else fail wrong_chain

unfoldable pub ensure_multicall_at : ℕ → Result Fault (Unit {0})
ensure_multicall_at block = if leb multicall_deploy_block block then ok tt else err before_multicall
