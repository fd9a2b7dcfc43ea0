-- ===== src/Examples/Served.antt =====
-- The server over the honest node: it catches up to one block, and two passes take it further.
use poulpy_eth_pir_demo.Base.{ℕ, ◌≡◌, inr, refl, true, false, none, some, [], ◌∷◌, ◌+◌, ◌≤◌, arith}
use poulpy_eth_pir_demo.Base.Equality.{byte_list_eq, bytes_eq}
use poulpy_eth_pir_demo.Base.Table
use poulpy_eth_pir_demo.Base.Run.{Result, ok, err}
use poulpy_eth_pir_demo.Text.{ascii, to_ascii_lowercase}
use poulpy_eth_pir_demo.Record.{Entry}
use poulpy_eth_pir_demo.Record
use poulpy_eth_pir_demo.Balances.{
  new, prune_zero, prune_each, insert_new, first_block, apply, apply_to, apply_existing,
  remove_if_zero, block32,
}
use poulpy_eth_pir_demo.Balances
use poulpy_eth_pir_demo.Balances.Invariant.{new-HoldsBalances}
use poulpy_eth_pir_demo.Progress.{recorded_at}
use poulpy_eth_pir_demo.Chain.Tip.{
  Tip, is_reorgable, resolve, finalized_block, or_no_block, block_hash,
}
use poulpy_eth_pir_demo.Chain.Touch.{see, max_block}
use poulpy_eth_pir_demo.Chain.Events.Words.{word_of}
use poulpy_eth_pir_demo.Chain.Events
use poulpy_eth_pir_demo.Chain.Events.{collect_touched, collect_logs, sort_unstable, dedup}
use poulpy_eth_pir_demo.Follow.Stats.{fold}
use poulpy_eth_pir_demo.Follow.Apply.Exact.{balances_of, said}
use poulpy_eth_pir_demo.Chain.Rpc.{
  read_balances, read_chunks, chunks, chunks_loop, usdt_owner, call_balance_chunk, balance_calls,
  owner_calls, insert_balance_results, insert_pairs, decode_balance, from_be_bytes,
}
use poulpy_eth_pir_demo.Follow.Apply.{
  apply_touched, apply_readings, apply_reading, or_panic, record_apply_result, record_inserted,
  record_current_entry, apply_range, collect_addresses, add_usdt_owner_touches,
}
use poulpy_eth_pir_demo.Follow.Watch.{
  record_touched, repair_if_reorged, check_hash, same_hash, store_cursor_hash, set_hash, trim,
  drop_before, repair, rewind, correct_stale_addresses, addresses, add_recent, add_all, stale_into,
  apply_stale,
}
use poulpy_eth_pir_demo.Follow.Logs.{
  fetch_logs, fetch_loop, narrow_range, is_result_cap_message, contains, any_contained, starts_with,
}
use poulpy_eth_pir_demo.Follow.Syncer.{
  Sync, sync, sync_into, sync_chunks, chunk_loop, sync_one_chunk, chunk_end, sync_up_to,
  block_after, fetch, apply_chunk, set_cursor, maybe_snapshot, save, mark_snapshot, prune_transient,
  start_totals,
}
use poulpy_eth_pir_demo.Follow.Loop.{
  Channel, Follower, pass, repair_if_needed, advance, record_progress, finish_pass,
  update_reorg_watch, trim_watch, record_finished, publish_changes, Rounds, round, settle_pass,
  on_success,
}
use poulpy_eth_pir_demo.Follow.Loop.InLine.{Passes, here, later, absorbed}
use poulpy_eth_pir_demo.Follow.Loop.Right.{IsRight, Runs, Runs-IsRight}
use poulpy_eth_pir_demo.Follow.Loop.Near.{highest, Runs-Near}
use poulpy_eth_pir_demo.Chain.Node.{Node}
use poulpy_eth_pir_demo.Publish.Directory.{from_blob, directory_of}
use poulpy_eth_pir_demo.Publish.Store
use poulpy_eth_pir_demo.Publish.Store.{Files, read_index, read_keys, read_file, match_halves}
use poulpy_eth_pir_demo.Publish.Worker.{
  Worker, run_thread, open_server, start_worker, save_checkpoint, save_halves, publish_directory,
  expose,
}
use poulpy_eth_pir_demo.Options.{
  ServeFlags, serve_defaults, serving_of, follow_args, follow_config, progress_config, pir_config,
  serve_in_range, listens,
}
use poulpy_eth_pir_demo.Serve.{
  with_fresh_pass, catch_up_round, catch_up_once, catch_up_to, sync_to_target, save_then,
  settle_catch_up, snapshot, CatchesUp, done, NotStarted, start_pir, check_endpoint, collect_rows,
  begin_following,
}
use poulpy_eth_pir_demo.Serve.Started.{serve-published}
use poulpy_eth_pir_demo.Examples.Records.{alice}
use poulpy_eth_pir_demo.Examples.Logs.{alice-IsHolder}
use poulpy_eth_pir_demo.Examples.Honest.{
  honest_node, chain_truth, honest, chain_hash, hashes, chain_node, thorough,
}
use poulpy_eth_pir_demo.Examples.Services.{tiny_server, first_byte}

abbrev flags : ServeFlags
flags = serve_defaults (ascii "http://node")

abbrev opened : Sync ℕ
opened = with_fresh_pass honest_node (new 99) 0

abbrev caught : Sync ℕ
caught = (catch_up_once honest_node (progress_config (follow_args flags)) opened).1

abbrev files : Files
files = record { index = none; keys = none }

abbrev worker_of : Result (NotStarted honest_node) (Worker ℕ × Follower ℕ) → Worker ℕ
worker_of (ok (w, f)) = w
worker_of (err e) = start_worker tiny_server (pir_config 0 0 0) [] files 0

abbrev worker : Worker ℕ
worker = worker_of (start_pir honest_node tiny_server first_byte (serving_of flags) files caught)

abbrev follower : Follower ℕ
follower = begin_following honest_node caught

further : Follower ℕ
further =
    (pass honest_node (progress_config (follow_args flags))
      (pass honest_node (progress_config (follow_args flags)) follower).1).1

-- Everything that the run computes with.
whole_run : Unit {0}
unfolding catch_up_once catch_up_to sync_to_target save_then settle_catch_up follow_config
    progress_config follow_args begin_following further pass repair_if_needed advance
    record_progress finish_pass update_reorg_watch record_finished publish_changes is_reorgable
    resolve finalized_block or_no_block new prune_zero prune_each remove_if_zero sync sync_into
    sync_chunks chunk_loop sync_one_chunk fetch apply_chunk set_cursor maybe_snapshot save
    mark_snapshot prune_transient start_totals fetch_logs fetch_loop narrow_range
    is_result_cap_message to_ascii_lowercase contains any_contained starts_with apply_range
    collect_addresses add_usdt_owner_touches collect_touched collect_logs sort_unstable dedup
    record_touched fold recorded_at apply_touched apply_readings apply_reading read_balances
    read_chunks chunks chunks_loop usdt_owner call_balance_chunk balance_calls owner_calls
    insert_balance_results insert_pairs decode_balance from_be_bytes or_panic Table.insert Table.get
    Table.contains_key bytes_eq apply apply_to insert_new first_block apply_existing
    record_apply_result record_inserted record_current_entry Events.collect_log
    Events.collect_topics Events.collect_transfer Events.transfer_is_inert word_of Events.understand
    Events.touch_word Events.addr_from_word Events.touch see max_block block32 Record.is_zero
    Balances.get Balances.is_zero repair_if_reorged check_hash same_hash store_cursor_hash set_hash
    trim_watch trim drop_before block_hash chunk_end sync_up_to block_after
whole_run = tt

caught_up : CatchesUp honest_node (progress_config (follow_args flags)) caught opened
unfolding whole_run catch_up_round
caught_up = done refl

passed_twice : Passes honest_node (progress_config (follow_args flags)) follower further
unfolding whole_run
passed_twice = later (later here refl) refl

started :
    start_pir honest_node tiny_server first_byte (serving_of flags) files caught
    ≡ ok (worker, follower)
unfolding whole_run start_pir run_thread open_server Store.load read_index read_keys read_file
    match_halves start_worker save_checkpoint save_halves publish_directory expose from_blob
    directory_of snapshot collect_rows check_endpoint serving_of pir_config
started = refl

has_balance : Balances.is_zero (chain_truth further.inner.map.cursor alice) ≡ false
unfolding whole_run
has_balance = refl

in_range : serve_in_range flags ≡ true
unfolding serve_in_range listens
in_range = refl

right : IsRight chain_truth alice opened.map
unfolding new Balances.get Table.get
right = refl

-- The first pass reaches the payment in block 103, the second asks for the hash of block 107.
serve-published_example :
    (tx : Channel) × (further.updates ≡ some tx)
    × (e : Entry) × (Table.get alice (absorbed tx.sent worker.current) ≡ some e)
    × (balances_of (some e) ≡ chain_truth further.inner.map.cursor alice)
serve-published_example =
    serve-published honest_node tiny_server first_byte files flags chain_hash chain_truth
      (λ block. alice) alice in_range (inr hashes) alice-IsHolder honest (new-HoldsBalances 99)
      right caught_up started passed_twice has_balance

abbrev at_first : Rounds ℕ
at_first = record { follower = follower; failures = 3 }

abbrev final_flags : ServeFlags
final_flags = record flags { confirmations = Tip.finalized }

final_further : Follower ℕ
final_further = (pass honest_node (progress_config (follow_args final_flags)) follower).1

one_round :
    Runs honest_node
      (progress_config (follow_args final_flags))
      at_first
      (record { follower = final_further; failures = 0 })
unfolding whole_run final_further round settle_pass on_success
one_round = Runs.later Runs.here refl

at_first-IsRight : IsRight chain_truth alice follower.inner.map
unfolding whole_run
at_first-IsRight = refl

Runs-IsRight_example : IsRight chain_truth alice final_further.inner.map
unfolding progress_config follow_config follow_args is_reorgable
Runs-IsRight_example =
    Runs-IsRight honest_node (progress_config (follow_args final_flags)) chain_truth
      (λ block. alice) alice refl (omega arith) alice-IsHolder honest one_round at_first-IsRight

-- A node that gives a block another hash each time, so that every pass but the first goes back.
abbrev fickle_node : Node
fickle_node = chain_node (λ block w. (ok (some (w ∷ [])), w + 1))

abbrev run_of : Follower ℕ → Follower ℕ
run_of f = (pass fickle_node (progress_config (follow_args flags)) f).1

there_and_back : Follower ℕ
there_and_back = run_of (run_of follower)

two_rounds :
    Runs fickle_node
      (progress_config (follow_args flags))
      at_first
      (record { follower = there_and_back; failures = 0 })
unfolding whole_run there_and_back round settle_pass on_success repair rewind
    correct_stale_addresses addresses add_recent add_all stale_into apply_stale
    Balances.stamp_seen_blocks Balances.update_block Balances.write_balances Balances.update_balance
    Table.remove
two_rounds = Runs.later (Runs.later Runs.here refl) refl

Runs-Near_example :
    (b : ℕ) × (there_and_back.inner.map.cursor ≤ b)
    × (b ≤ highest two_rounds)
    × (said alice there_and_back.inner.map ≡ chain_truth b alice)
unfolding progress_config follow_config follow_args
Runs-Near_example =
    Runs-Near fickle_node (progress_config (follow_args flags)) chain_truth (λ block. alice) alice
      (omega arith) alice-IsHolder (thorough _) two_rounds at_first-IsRight
