-- ===== src/Chain/Node.antt =====
-- What the program takes from the world outside: the Ethereum node behind alloy's `Provider`, the
-- ABI coding of alloy's `sol!` macro, the clock and the disk. None of it is under this repository,
-- so it is a record that the definitions take; a call may change the world, and may fail.
use poulpy_eth_pir_demo.Base.{ℕ, Bool, true, false, Option, List}
use poulpy_eth_pir_demo.Base.Run.{Result, ok, err, Run}
use poulpy_eth_pir_demo.Tokens.{Address, Hash}
use poulpy_eth_pir_demo.Chain.Events.{Log}
use poulpy_eth_pir_demo.Snapshot.{ErrorKind}

-- The text of an RPC error, lower-case or not.
abbrev pub Message : Type 0
Message = List ℕ

-- Why a pass over the chain fails. `panic` is a Rust panic, which ends the program.
pub data Fault : Type 0 where
  rpc : Message → Fault
  io : ErrorKind → Fault
  no_finalized_block wrong_chain before_multicall no_logs no_old_logs no_state : Fault
  result_count balance_size : Fault
  balance_overflow pir_thread_gone panic : Fault
  -- A block number past 64 bits, which a build with overflow checks panics at.
  overflow : Fault
  -- No error of the program: a loop of the model ran out of fuel.
  stuck : Fault

-- A panic ends the program, so it is not handled as an error is.
unfoldable pub is_panic : Fault → Bool
is_panic panic = true
is_panic overflow = true
is_panic _ = false

pub record Call : Type 0 where
  pub target : Address
  pub allow_failure : Bool
  pub call_data : List ℕ

pub record CallResult : Type 0 where
  pub success : Bool
  pub return_data : List ℕ

pub record Node : Type 1 where
  pub World : Type 0
  pub get_logs : ℕ → ℕ → Run World Message (List Log)
  pub get_block_number : Run World Message ℕ
  pub get_chain_id : Run World Message ℕ
  -- The number of the finalized block, and the hash of a block by number, if the node has them.
  pub finalized_number : Run World Message (Option ℕ)
  pub hash_at : ℕ → Run World Message (Option Hash)
  pub aggregate : List Call → ℕ → Run World Message (List CallResult)
  pub owner : Address → ℕ → Run World Message Address
  pub balance_of_call : Address → List ℕ
  -- Milliseconds of a clock that does not go back.
  pub now : World → ℕ × World
  -- Seconds since 1970.
  pub unix_time : World → ℕ × World
  -- The whole of `write_snapshot_atomically` on the snapshot's path.
  pub write_file : List ℕ → Run World ErrorKind (Unit {0})

-- `?` on an RPC error.
abbrev pub of_rpc : {S A : Type 0} → Result Message A × S → Result Fault A × S
of_rpc (ok a, s) = (ok a, s)
of_rpc (err m, s) = (err (rpc m), s)
