-- ===== src/Examples/Chunks.antt =====
-- A run over a provider that answers for two blocks at a time.
use poulpy_eth_pir_demo.Base.{
  ℕ, ◌≢◌, ◌+◌, refl, true, false, none, some, [], ◌∷◌, ltb, if◌then◌else◌, inl, inr, arith,
}
use poulpy_eth_pir_demo.Base.Run.{ok, err}
use poulpy_eth_pir_demo.Chain.Node.{Node, Message, overflow}
use poulpy_eth_pir_demo.Chain.Tip.{Tip, is_reorgable}
use poulpy_eth_pir_demo.Balances.{new, prune_zero, prune_each}
use poulpy_eth_pir_demo.Progress.{no_progress}
use poulpy_eth_pir_demo.Follow.Stats.{only_blocks}
use poulpy_eth_pir_demo.Follow.Watch.{no_watch}
use poulpy_eth_pir_demo.Follow.Logs.{fetch_logs}
use poulpy_eth_pir_demo.Follow.Logs.Narrowing.{IsFetched, fetch_logs-IsFetched}
use poulpy_eth_pir_demo.Follow.Syncer.{Sync, FollowConfig, sync_chunks}
use poulpy_eth_pir_demo.Follow.Syncer.Ends.{Post, Always}
use poulpy_eth_pir_demo.Follow.Syncer.Chunks.{Within, Done}
use poulpy_eth_pir_demo.Follow.Syncer.Fits.{sync_chunks-Ends}
use poulpy_eth_pir_demo.Follow.Syncer.Covered.{covering}
use poulpy_eth_pir_demo.Follow.Apply.Covers.{Covers, Serves, Serves-Covers}
use poulpy_eth_pir_demo.Follow.Loop.InLine.{Follows, pass-Follows}
use poulpy_eth_pir_demo.Balances.Invariant.{new-HoldsBalances}
use poulpy_eth_pir_demo.Balances
use poulpy_eth_pir_demo.Base.Table
use poulpy_eth_pir_demo.Base.Equality.{byte_list_eq}
use poulpy_eth_pir_demo.Follow.Loop.{Follower, pass}
use poulpy_eth_pir_demo.Follow.Loop.Sent.{IsSent, pass-IsSent}
use poulpy_eth_pir_demo.Examples.Records.{alice}

-- "exceeds"
abbrev too_wide : Message
too_wide = b'e' ∷ b'x' ∷ b'c' ∷ b'e' ∷ b'e' ∷ b'd' ∷ b's' ∷ []

-- The world counts the calls.
abbrev pub quiet_node : Node
quiet_node = record {
  World = ℕ;
  get_logs = λ from to w. (if ltb (from + 1) to then err too_wide else ok [], w + 1);
  get_block_number = λ w. (ok 30000000, w + 1);
  get_chain_id = λ w. (ok 1, w + 1);
  finalized_number = λ w. (ok (some 107), w + 1);
  hash_at = λ block w. (ok none, w + 1);
  aggregate = λ calls block w. (ok [], w + 1);
  owner = λ token block w. (ok alice, w + 1);
  balance_of_call = λ holder. holder;
  now = λ w. (w, w + 1);
  unix_time = λ w. (w, w + 1);
  write_file = λ bytes w. (ok tt, w + 1);
}

fetch_logs-IsFetched_example : IsFetched quiet_node 100 107 8 (fetch_logs quiet_node 100 107 8 0)
fetch_logs-IsFetched_example =
    fetch_logs-IsFetched quiet_node 100 107 8 0 (omega arith) (omega arith)

abbrev pub config : FollowConfig
config = record {
  chunk = 8;
  snapshot_every = 60000;
  tip = Tip.finalized;
  reorg_window = 64;
  reports_progress = false;
}

abbrev pub at_block : Sync ℕ
at_block = record {
  world = 0;
  map = new 99;
  last_snapshot = 0;
  watch = no_watch;
  changed = [];
  totals = only_blocks 0;
  inserted = [];
  chunk = 0;
  progress = no_progress;
}

nothing_served : Serves [] (new 99)
unfolding new Balances.get Table.get
nothing_served j e h = cc

nothing_covered : Covers [] (new 99) []
nothing_covered = Serves-Covers [] (new 99) (new-HoldsBalances 99) nothing_served

sync_chunks-Ends_example :
    Post
      (λ t s'. Done quiet_node config 100 107 (covering quiet_node []) s')
      (Within quiet_node config 100 107 (covering quiet_node []))
      (sync_chunks quiet_node config 100 107 at_block)
    × ((sync_chunks quiet_node config 100 107 at_block).0 ≢ err overflow)
unfolding new
sync_chunks-Ends_example =
    sync_chunks-Ends quiet_node config 100 107 (covering quiet_node []) (omega arith) at_block refl
      (omega arith) (omega arith) nothing_covered

-- A follower with a PIR thread at the other end of its channel.
abbrev follower : Follower ℕ
follower = record { inner = at_block; updates = some (record { is_open = true; sent = [] }) }

pass-IsSent_example : IsSent quiet_node follower.updates (pass quiet_node config follower)
pass-IsSent_example = pass-IsSent quiet_node config follower

follower-Follows : Follows config (λ n. none) [] follower
follower-Follows = record {
  channel = _;
  connected = refl;
  serves = nothing_served;
  balances = new-HoldsBalances 99;
  armed = inr (inl refl);
}

pass-Follows_example :
    Post (λ t s'. Follows config (λ n. none) [] s') Always (pass quiet_node config follower)
unfolding is_reorgable
pass-Follows_example =
    pass-Follows quiet_node config (λ n. none) [] follower (inl refl) (omega arith) follower-Follows
