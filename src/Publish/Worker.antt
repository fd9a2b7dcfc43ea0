-- ===== src/Publish/Worker.antt =====
-- src/publish/worker.rs, src/publish/checkpoint.rs and src/publish/mod.rs: the thread that owns the
-- PIR server. The server belongs to the eth-pir crate, so it is a record that the definitions take.
-- Logging and the timings are not modelled.
pub mod Served
pub mod Absorbed
use poulpy_eth_pir_demo.Base.{
  ℕ, ◌+◌, ◌-◌, ◌*◌, Bool, true, false, ◌&&◌, ◌||◌, Option, none, some, List, [], ◌∷◌, length,
  nat_eq, leb, ltb, if◌then◌else◌,
}
use poulpy_eth_pir_demo.Base.Equality.{byte_list_eq}
use poulpy_eth_pir_demo.Base.Run.{Result, ok, err}
use poulpy_eth_pir_demo.Tokens.{Address}
use poulpy_eth_pir_demo.Record.{Entry}
use poulpy_eth_pir_demo.Snapshot.{ErrorKind}
use poulpy_eth_pir_demo.Publish.Current.{UpdateBatch, PirSnapshot, record_current_value}
use poulpy_eth_pir_demo.Publish.Directory.{Directory, Parsed, from_blob}
use poulpy_eth_pir_demo.Publish.Store
use poulpy_eth_pir_demo.Publish.Store.{Files, KeywordCheckpoint, Loaded, save_index, save_keys}

-- `EthPirServer`, and the clock and the disk. A save may fail, and leaves the file as it was then.
pub record Server : Type 1 where
  pub State : Type 0
  pub init : PirSnapshot → Option State
  pub restore : List ℕ → List Address → PirSnapshot → Option State
  pub update : Address → Entry → State → Result (Unit {0}) (Unit {0}) × State
  -- What a rebuild reports: nothing was pending, or the timings of one.
  pub try_rebuild_database : State → Result (Unit {0}) (Option (Unit {0})) × State
  pub rebuild_keyword_index_from : PirSnapshot → State → Result (Unit {0}) (Unit {0}) × State
  pub server_len : State → ℕ
  pub checkpoint : State → Option KeywordCheckpoint
  pub try_full : State → Option (List ℕ)
  pub mphf_size : State → Option ℕ
  pub tail_size : State → Option ℕ
  pub read_from : List ℕ → Option Parsed
  pub now : State → ℕ × State
  pub can_write_keys : State → Bool
  -- The index with a checkpoint, and the one that is published.
  pub can_write_checkpoint : State → Bool
  pub can_write_index : State → Bool

pub record PirConfig : Type 0 where
  pub rebuild_every : ℕ
  pub compact_after : ℕ
  pub compact_tail_percent : ℕ

-- `PirWorker`, with the server, the files and the directory slot that it is given.
pub record Worker (State : Type 0) : Type 0 where
  pub server : State
  pub last_publish : ℕ
  pub len_at_compaction : ℕ
  pub absorbed_since_publish : ℕ
  pub current : PirSnapshot
  pub files : Files
  pub slot : Option Directory

unfoldable pub tail_ratio_reached : ℕ → ℕ → ℕ → Bool
tail_ratio_reached tail_bytes mphf_bytes percent =
    if nat_eq percent 0 || nat_eq mphf_bytes 0
    then false
    else leb (mphf_bytes * percent) (tail_bytes * 100)

module _ (server : Server) (cfg : PirConfig) where
  open server use {
    State, init, restore, update, try_rebuild_database, rebuild_keyword_index_from, server_len,
    checkpoint, try_full, mphf_size, tail_size, read_from, now, can_write_keys,
    can_write_checkpoint, can_write_index,
  }

  unfoldable pub record_absorbed : Address → Entry → Worker State → Worker State
  record_absorbed addr entry w = record w {
    current = record_current_value addr entry w.current;
    absorbed_since_publish = w.absorbed_since_publish + 1;
  }

  -- An update that the server rejects is only logged.
  unfoldable pub absorb_one : Address → Entry → Worker State → Worker State
  absorb_one addr entry w =
      let (r, s) = update addr entry w.server in
      let w' = record w { server = s } in
      elim r [ ok t ↦ record_absorbed addr entry w' | err e ↦ w' ]

  unfoldable pub absorb : UpdateBatch → Worker State → Worker State
  absorb [] w = w
  absorb ((addr, entry) ∷ rest) w = absorb rest (absorb_one addr entry w)

  unfoldable pub publish : Worker State → Worker State
  publish w =
      let (started, s) = now w.server in
      let (r, s') = try_rebuild_database s in
      let w' = record w { server = s'; last_publish = started } in
      elim r [ ok (some t) ↦ record w' { absorbed_since_publish = 0 } | ok none ↦ w' | err e ↦ w' ]

  unfoldable pub count_threshold_met : ℕ → Bool
  count_threshold_met delta = leb cfg.compact_after delta

  -- The size of the MPHF and of the tail, where they are needed.
  unfoldable pub keyword_sizes : State → ℕ → Option (ℕ × ℕ)
  keyword_sizes s delta =
      if nat_eq delta 0 || nat_eq cfg.compact_tail_percent 0 then none else elim (mphf_size s) [
        | none ↦ none
        | some mphf ↦ elim (tail_size s) [ none ↦ none | some tail ↦ some (mphf, tail) ]
      ]

  unfoldable pub size_threshold_met : State → ℕ → Bool
  size_threshold_met s delta = elim (keyword_sizes s delta) [
    | none ↦ false
    | some (mphf, tail) ↦ tail_ratio_reached tail mphf cfg.compact_tail_percent
  ]

  unfoldable pub should_compact : State → ℕ → Bool
  should_compact s delta = count_threshold_met delta || size_threshold_met s delta

  unfoldable pub record_resync : Worker State → Worker State
  record_resync w =
      let (t, s) = now w.server in
      record w {
        server = s;
        len_at_compaction = server_len w.server;
        absorbed_since_publish = 0;
        last_publish = t;
      }

  unfoldable pub resync_from_current_map : Worker State → Bool × Worker State
  resync_from_current_map w =
      let (r, s) = rebuild_keyword_index_from w.current w.server in
      let w' = record w { server = s } in
      elim r [ ok t ↦ (true, record_resync w') | err e ↦ (false, w') ]

  unfoldable pub compact_if_needed : Worker State → Bool × Worker State
  compact_if_needed w =
      if should_compact w.server (server_len w.server - w.len_at_compaction)
      then resync_from_current_map w
      else (false, w)

  -- `.keys` first; the index only if that went well.
  unfoldable pub save_halves : KeywordCheckpoint → Worker State → Files
  save_halves c w =
      if can_write_keys w.server
      then (if can_write_checkpoint w.server
          then save_index c.directory (save_keys c w.files)
          else save_keys c w.files)
      else w.files

  unfoldable pub save_checkpoint : Worker State → Worker State
  save_checkpoint w = elim (checkpoint w.server) [
    | none ↦ w
    | some c ↦ record w { files = save_halves c w }
  ]

  unfoldable pub save_after_compaction : Worker State → Worker State
  save_after_compaction w =
      let (rebuilt, w') = compact_if_needed w in if rebuilt then save_checkpoint w' else w'

  -- A blob that does not parse leaves the slot as it was, after its file was written.
  unfoldable pub expose : List ℕ → Worker State → Worker State
  expose blob w = elim (from_blob read_from blob) [ none ↦ w | some d ↦ record w { slot = some d } ]

  unfoldable pub publish_directory : Worker State → Worker State
  publish_directory w = elim (try_full w.server) [
    | none ↦ w
    | some blob ↦
        if can_write_index w.server
        then expose blob (record w { files = save_index blob w.files })
        else w
  ]

  -- What `serve` does when the deadline has come.
  unfoldable pub serve_round : Worker State → Worker State
  serve_round w = publish_directory (save_after_compaction (publish w))

  -- What comes to the thread before its deadline.
  pub data Event : Type 0 where
    received : UpdateBatch → Event
    timeout disconnected : Event

  -- `false` when the syncer is gone; the events that are left come back too. A list that ends
  -- before the wait does stands for a timeout.
  unfoldable pub wait_for_deadline : List Event → Worker State → Bool × List Event × Worker State
  wait_for_deadline [] w = (true, [], w)
  wait_for_deadline (e ∷ events) w =
      let (t, s) = now w.server in
      let w' = record w { server = s } in
      let after = λ (batch : UpdateBatch). wait_for_deadline events (absorb batch w') in
      if leb (w.last_publish + cfg.rebuild_every) t then (true, e ∷ events, w') else elim e [
        | received batch ↦ after batch
        | timeout ↦ (true, events, w')
        | disconnected ↦ (false, events, w')
      ]

  -- `open_server`: the saved index if there is one; a fresh server is saved at once. `none` is an
  -- error, with which the thread ends.
  unfoldable pub open_server :
      Result ErrorKind (Option Loaded)
      → PirSnapshot
      → (State → Worker State)
      → Option (Worker State)
  open_server (err e) initial start = none
  open_server (ok (some saved)) initial start = elim (restore saved.directory saved.keys initial) [
    | none ↦ none
    | some s ↦ some (start s)
  ]
  open_server (ok none) initial start = elim (init initial) [
    | none ↦ none
    | some s ↦ some (save_checkpoint (start s))
  ]

  unfoldable pub start_worker : PirSnapshot → Files → State → Worker State
  start_worker initial files s = record {
    server = s;
    last_publish = 0;
    len_at_compaction = server_len s;
    absorbed_since_publish = 0;
    current = initial;
    files = files;
    slot = none;
  }

  -- `run_thread` up to the loop. The worker's clock starts when it is made.
  unfoldable pub run_thread :
      (List ℕ → Result ErrorKind ℕ) → PirSnapshot → Files → Option (Worker State)
  run_thread directory_version initial files =
      elim (open_server (Store.load directory_version files) initial (start_worker initial files)) [
        | none ↦ none
        | some w ↦
            let w' = publish_directory w in
            let (t, s) = now w'.server in
            some
              (record w' { server = s; len_at_compaction = server_len w'.server; last_publish = t })
      ]
