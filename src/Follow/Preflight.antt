-- ===== src/Follow/Preflight.antt =====
-- src/follow/syncer.rs: `preflight`, what a sync asks of the provider before it begins.
use poulpy_eth_pir_demo.Base.{ℕ, nat_eq, ◌≤◌, ◌≢◌, arith, [], ◌∷◌, List, Bool-cases, inl, inr, leb}
use poulpy_eth_pir_demo.Base.Equality.{byte_list_eq}
use poulpy_eth_pir_demo.Base.Table.{Table}
use poulpy_eth_pir_demo.Base.Run.{Result, ok, err, Run, lift, ◌>>=◌, ◌>>◌}
use poulpy_eth_pir_demo.Tokens.{Address, usdt_token, multicall_deploy_block, mainnet_chain_id}
use poulpy_eth_pir_demo.Balances.{Reading}
use poulpy_eth_pir_demo.Chain.Events.{Log}
use poulpy_eth_pir_demo.Chain.Node.{
  Node, Fault, Message, of_rpc, no_state, no_logs, no_old_logs, overflow,
}
use poulpy_eth_pir_demo.Chain.Rpc.{read_balances, ensure_mainnet, ensure_multicall_at}
use poulpy_eth_pir_demo.Follow.Syncer.Ends.{
  Post, Keeps, Always, NeverStuck, bind-Keeps, bind-NeverStuck, of_rpc-NeverStuck, pure-NeverStuck,
  if-Keeps,
}
use poulpy_eth_pir_demo.Follow.Syncer.Avoids.{
  Avoids, all-Avoids, of_rpc-Avoids, pure-Avoids, lift-Avoids, if-Avoids,
}

module _ (node : Node) where
  open node use {World, get_logs, get_block_number}

  unfoldable pub state_answer :
      Result Fault (Table Address Reading) × World → Result Fault (Unit {0}) × World
  state_answer (ok readings, w) = (ok tt, w)
  state_answer (err e, w) = (err no_state, w)

  unfoldable pub ensure_state_available : ℕ → Run World Fault (Unit {0})
  ensure_state_available from w = state_answer (read_balances node (usdt_token ∷ []) from w)

  unfoldable pub head_logs_answer :
      Result Message (List Log) × World → Result Fault (Unit {0}) × World
  head_logs_answer (err e, w) = (err no_logs, w)
  head_logs_answer (ok logs, w) = (err no_old_logs, w)

  unfoldable pub logs_answer : Result Message (List Log) × World → Result Fault (Unit {0}) × World
  logs_answer (ok logs, w) = (ok tt, w)
  logs_answer (err e, w) =
      (do head ← λ w. of_rpc (get_block_number w); λ w. head_logs_answer (get_logs head head w)) w

  unfoldable pub ensure_logs_available : ℕ → Run World Fault (Unit {0})
  ensure_logs_available from w = logs_answer (get_logs from from w)

  unfoldable pub preflight : ℕ → Run World Fault (Unit {0})
  preflight from = do
    ensure_mainnet node
    lift (ensure_multicall_at from)
    ensure_state_available from
    ensure_logs_available from

  ensure_mainnet-NeverStuck : NeverStuck (ensure_mainnet node)
  unfolding ensure_mainnet
  ensure_mainnet-NeverStuck =
      bind-NeverStuck (λ w. of_rpc (node.get_chain_id w)) _ (of_rpc-NeverStuck _)
        (λ id.
          if-Keeps (nat_eq id mainnet_chain_id) _ _ (pure-NeverStuck tt)
            (record { post = λ w p. (λ h. cc, tt) }))

  deployed :
      (from : ℕ)
      → Keeps {S = World} Always
          (lift (ensure_multicall_at from))
          (λ t w. multicall_deploy_block ≤ from)
          Always
  unfolding ensure_multicall_at
  deployed from = record {
    post = λ w p. elim (Bool-cases (leb multicall_deploy_block from)) [
      | inl late ↦ rw late (ground arith)
      | inr early ↦ rw early (λ h. cc, tt)
    ];
  }

  ensure_state_available-Keeps :
      {P : Type 0} (from : ℕ) → Keeps (λ w. P) (ensure_state_available from) (λ t w. P) Always
  unfolding ensure_state_available state_answer
  ensure_state_available-Keeps {P} from = record {
    post = λ w p. go p (read_balances node (usdt_token ∷ []) from w);
  }
    where
      go :
          P
          → (r : Result Fault (Table Address Reading) × World)
          → Post (λ t w. P) Always (state_answer r)
      go p (ok readings, w) = p
      go p (err e, w) = (λ h. cc, tt)

  ensure_logs_available-Keeps :
      {P : Type 0} (from : ℕ) → Keeps (λ w. P) (ensure_logs_available from) (λ t w. P) Always
  unfolding ensure_logs_available logs_answer head_logs_answer
  ensure_logs_available-Keeps {P} from = record { post = λ w p. go p (get_logs from from w) }
    where
      at_head :
          (r : Result Message (List Log) × World)
          → Post (λ (t : Unit {0}) w. P) Always (head_logs_answer r)
      at_head (ok logs, w) = (λ h. cc, tt)
      at_head (err e, w) = (λ h. cc, tt)

      go : P → (r : Result Message (List Log) × World) → Post (λ t w. P) Always (logs_answer r)
      go p (ok logs, w) = p
      go p (err e, w) =
          (bind-Keeps (λ w. of_rpc (get_block_number w)) _ (of_rpc-NeverStuck _)
              (λ head. record { post = λ w q. at_head (get_logs head head w) })).post
            w tt

  -- A preflight that succeeds begins no earlier than the contract that balances are read through.
  pub preflight-deployed :
      (from : ℕ) → Keeps Always (preflight from) (λ t w. multicall_deploy_block ≤ from) Always
  unfolding preflight
  preflight-deployed from = bind-Keeps (ensure_mainnet node) _ ensure_mainnet-NeverStuck (λ t.
      bind-Keeps (lift (ensure_multicall_at from)) _ (deployed from) (λ t.
        bind-Keeps (ensure_state_available from) _ (ensure_state_available-Keeps from)
          (λ t. ensure_logs_available-Keeps from)))

  ensure_mainnet-Avoids : Avoids Always (ensure_mainnet node)
  unfolding ensure_mainnet
  ensure_mainnet-Avoids =
      all-Avoids (λ w. of_rpc (node.get_chain_id w)) _ (of_rpc-Avoids _)
        (λ id.
          if-Avoids (nat_eq id mainnet_chain_id) _ _ (pure-Avoids tt)
            (record { avoids = λ w p h. cc }))

  deployed-ne : (from : ℕ) → ensure_multicall_at from ≢ err overflow
  unfolding ensure_multicall_at
  deployed-ne from h = ground arith

  ensure_state_available-Avoids : (from : ℕ) → Avoids Always (ensure_state_available from)
  unfolding ensure_state_available state_answer
  ensure_state_available-Avoids from = record {
    avoids = λ w p. go (read_balances node (usdt_token ∷ []) from w);
  }
    where
      go : (r : Result Fault (Table Address Reading) × World) → (state_answer r).0 ≢ err overflow
      go (ok readings, w) h = cc
      go (err e, w) h = cc

  ensure_logs_available-Avoids : (from : ℕ) → Avoids Always (ensure_logs_available from)
  unfolding ensure_logs_available logs_answer
  ensure_logs_available-Avoids from = record { avoids = λ w p. go (get_logs from from w) }
    where
      at_head : (head : ℕ) (w : World) → (head_logs_answer (get_logs head head w)).0 ≢ err overflow
      at_head head w = unfold head_logs_answer in λ h. ground arith

      go : (r : Result Message (List Log) × World) → (logs_answer r).0 ≢ err overflow
      go (ok logs, w) = λ h. cc
      go (err e, w) =
          (all-Avoids (λ w. of_rpc (get_block_number w)) _ (of_rpc-Avoids _)
              (λ head. record { avoids = λ w p. at_head head w })).avoids
            w tt

  pub preflight-Avoids : (from : ℕ) → Avoids Always (preflight from)
  unfolding preflight
  preflight-Avoids from = all-Avoids (ensure_mainnet node) _ ensure_mainnet-Avoids (λ t.
      all-Avoids (lift (ensure_multicall_at from)) _ (lift-Avoids _ (deployed-ne from)) (λ t.
        all-Avoids (ensure_state_available from) _ (ensure_state_available-Avoids from)
          (λ t. ensure_logs_available-Avoids from)))
