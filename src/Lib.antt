-- ===== src/Lib.antt =====
-- A model of the server and the client of this repository, which answers private queries for USDT
-- and USDC balances, with the theorems that make its parts correct.
--
-- The syncer follows the chain. It asks a node for the logs of a range of blocks, collects the
-- addresses that they name, reads the balances of those at the range's end and applies the
-- readings to the balance map, the authoritative table, which it writes to a snapshot file. What
-- changed in a pass is handed to the PIR thread, which absorbs it into the PIR server, publishes
-- on a cadence, keeps the keyword index on the disk and hands the keyword directory to the HTTP
-- endpoint. A client fetches the directory, asks for the record at an address and decodes the
-- answer.
--
-- Base: what the modules share (tests, lists, byte strings, association lists for hash maps, runs
--   that change a state and may fail, readers of byte strings).
-- Text: numbers and texts as the standard library writes and reads them.
-- Record: crates/record/src/lib.rs, the record, its payload and the text of a balance
--   (`format_units`). Tokens: src/tokens.rs.
-- Chain: src/chain. Events projects logs onto addresses (`collect_touched`), Rpc reads balances,
--   Tip finds the block to aim at; Node is the world outside.
-- Balances: src/map/types.rs and src/map/apply.rs (`apply`, `prune_zero`).
-- Snapshot: src/map/snapshot.rs, the file (`write_snapshot_file`, `load`).
-- Progress: src/progress.rs.
-- Follow: src/follow. Apply is the application of a range, Logs the fetching with narrower ranges,
--   Watch the reorg tripwire, Syncer the chunk loop, Loop the passes and the rounds of `run`.
-- Publish: src/publish, src/keyword_store/mod.rs (Store) and src/directory.rs. Worker is the
--   thread, Current its copy of the records.
-- Target: src/cli/args.rs, where a sync stops. Options: the flags of src/cli/args.rs and
--   src/cli/serve_config.rs as records, with their defaults and ranges, and what they become.
-- Opening: src/cli/commands.rs (`open_map`). Retry: src/cli/sync_cmd.rs (`run`, `run_sync`).
-- Serve: src/cli/serve_cmd.rs, the catch-up and the start of the PIR thread and the follower, with
--   `snapshot` of src/publish/mod.rs. Inspect: src/cli/inspect.rs (`lookup`, `sample`, `stat`).
-- Http: src/http. Routes and Reply are the routes and bodies of mod.rs and response.rs, Files is
--   static_files.rs; batch.rs and limit.rs have modules of their own.
-- Report: client/src/report.rs. Client: client/src/lib.rs and error.rs. Examples: tests, and the
--   theorems at concrete inputs.
--
-- Code that is not in the repository is a parameter: the node with alloy's ABI coding, the clock
-- and the disk (Chain.Node), the PIR server and client of the eth-pir crate (Publish.Worker.Server
-- and Client.Pir), the directory's format, the channels of tokio (Http.Batch.Receiver), the
-- reading of files and floating-point numbers (Http.Limit.Floats). A function that changes state
-- gives its result beside the new state, after an error too. What is on the chain is a function
-- from blocks to balances; a node is honest if what it answers, when it answers, is what is there,
-- and steady if it gives a block one hash only. A panic of the program is `none`, or the fault
-- `panic`.
--
-- Numbers are natural numbers, with the wrap-around and the saturation of the source written out,
-- but for the block numbers of the chunk loop: where `chunk_end` or `block_after` of
-- Follow.Syncer would pass 64 bits the model stops with the fault `overflow`, which is handled as
-- a panic, as it is in a build with overflow checks. In a build without them the model is exact
-- as long as this does not happen. Byte strings are lists of numbers, and texts are lists of
-- ASCII characters. A hash map is an association list, whose order stands for the order in which
-- it iterates. Loops whose end is not structural take fuel: fetching logs takes the width of the
-- range, the chunk loop the number of blocks, since each round narrows the range or does a block;
-- running out is the fault `stuck`, which the theorems on these loops exclude. A batch is
-- collected with as much fuel as it may have queries. The retry loop of the sync command takes an
-- attempt for each block and each one that may stall there. The catch-up of the serve command,
-- which may retry for ever, is a relation between where it starts and where it ends.
--
-- Not modelled: the command line's text but for a target and a tip, logging and printing, threads
-- and locks beyond what is said above, the router's table, the listener and headers, the file
-- lock, WebAssembly bindings, and the web portal.
pub mod Base
pub mod Text
pub mod Record
pub mod Tokens
pub mod Chain
pub mod Balances
pub mod Snapshot
pub mod Progress
pub mod Publish
pub mod Follow
pub mod Target
pub mod Options
pub mod Opening
pub mod Serve
pub mod Retry
pub mod Inspect
pub mod Report
pub mod Client
pub mod Http
pub mod Examples
