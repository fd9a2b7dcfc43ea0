-- ===== src/Options.antt =====
-- src/cli/args.rs, src/cli/serve_config.rs and the settings of src/cli/commands.rs: what the flags
-- of the commands are, and what becomes of them. Clap reads the texts; a flag that has a range is in
-- it. Paths and socket addresses are texts, and times are seconds or, in the settings, milliseconds.
use poulpy_eth_pir_demo.Base.{ℕ, ◌*◌, Bool, ◌&&◌, Option, none, some, leb}
use poulpy_eth_pir_demo.Text.{Text, ascii}
use poulpy_eth_pir_demo.Tokens.{Address}
use poulpy_eth_pir_demo.Chain.Tip.{Tip, finalized, confirmations}
use poulpy_eth_pir_demo.Target.{Target}
use poulpy_eth_pir_demo.Follow.Syncer.{FollowConfig}
use poulpy_eth_pir_demo.Publish.Worker.{PirConfig}
use poulpy_eth_pir_demo.Http.Batch.{BatchConfig}
use poulpy_eth_pir_demo.Http.Limit.{RateLimit}

abbrev pub default_state : Text
default_state = ascii "data/balances.snapshot"

abbrev pub default_keyword : Text
default_keyword = ascii "data/keyword"

pub record FollowFlags : Type 0 where
  pub rpc : Text
  pub state : Text
  pub from_block : Option Target
  pub chunk : ℕ
  pub snapshot_every : ℕ
  pub confirmations : Tip
  pub reorg_window : ℕ
  pub poll_interval : ℕ

pub record SyncFlags : Type 0 where
  pub rpc : Text
  pub state : Text
  pub from : Option ℕ
  pub to : Target
  pub chunk : ℕ
  pub snapshot_every : ℕ
  pub retries : ℕ

pub record ServeFlags : Type 0 where
  pub rpc : Text
  pub state : Text
  pub from_block : Option Target
  pub chunk : ℕ
  pub snapshot_every : ℕ
  pub confirmations : Tip
  pub reorg_window : ℕ
  pub poll_interval : ℕ
  pub rebuild_every : ℕ
  pub compact_after : ℕ
  pub compact_tail_percent : ℕ
  pub keyword : Text
  pub listen : Option Text
  pub web : Option Text
  pub batch_window : ℕ
  pub max_batch : ℕ
  pub queue_depth : ℕ
  pub rate_limit : ℕ
  pub rate_burst : ℕ

pub data Cmd : Type 0 where
  follow : FollowFlags → Cmd
  sync : SyncFlags → Cmd
  serve : ServeFlags → Cmd
  lookup : Address → Text → Cmd
  stat : Text → Cmd
  -- How many, the least number of whole tokens, and the snapshot.
  sample : ℕ → ℕ → Text → Cmd

-- What the flags are where nothing is said; the provider's address has no default but a variable of
-- the environment.
abbrev pub follow_defaults : Text → FollowFlags
follow_defaults rpc = record {
  rpc = rpc;
  state = default_state;
  from_block = none;
  chunk = 50;
  snapshot_every = 600;
  confirmations = finalized;
  reorg_window = 64;
  poll_interval = 12;
}

abbrev pub sync_defaults : Text → SyncFlags
sync_defaults rpc = record {
  rpc = rpc;
  state = default_state;
  from = none;
  to = Target.finalized;
  chunk = 50;
  snapshot_every = 600;
  retries = 10;
}

abbrev pub serve_defaults : Text → ServeFlags
serve_defaults rpc = record {
  rpc = rpc;
  state = default_state;
  from_block = none;
  chunk = 50;
  snapshot_every = 600;
  confirmations = confirmations 32;
  reorg_window = 64;
  poll_interval = 12;
  rebuild_every = 30;
  compact_after = 200000;
  compact_tail_percent = 100;
  keyword = default_keyword;
  listen = none;
  web = none;
  batch_window = 1000;
  max_batch = 64;
  queue_depth = 256;
  rate_limit = 60;
  rate_burst = 10;
}

-- The ranges that `value_parser` gives, and that `--web` requires `--listen`.
unfoldable pub follow_in_range : FollowFlags → Bool
follow_in_range f =
    leb 1 f.chunk && leb 1 f.snapshot_every && leb 1 f.reorg_window && leb 1 f.poll_interval

unfoldable pub listens : Option Text → Option Text → Bool
listens listen none = Bool.true
listens none (some web) = Bool.false
listens (some addr) (some web) = Bool.true

unfoldable pub serve_in_range : ServeFlags → Bool
serve_in_range f =
    leb 1 f.chunk
    && (leb 1 f.snapshot_every
        && (leb 1 f.reorg_window
            && (leb 1 f.poll_interval && (leb 1 f.rebuild_every && listens f.listen f.web))))

pub record FollowArgs : Type 0 where
  pub chunk : ℕ
  pub snapshot_every : ℕ
  pub confirmations : Tip
  pub reorg_window : ℕ
  pub poll_interval : ℕ

pub record Serving : Type 0 where
  pub rebuild_every : ℕ
  pub compact_after : ℕ
  pub compact_tail_percent : ℕ
  pub keyword : Text
  pub listen : Option Text
  pub web : Option Text
  pub batch : BatchConfig
  pub rate : RateLimit

pub record ServeArgs : Type 0 where
  pub rpc : Text
  pub state : Text
  pub from_block : Option Target
  pub follow : FollowArgs
  pub serving : Serving

unfoldable pub follow_args : ServeFlags → FollowArgs
follow_args f = record {
  chunk = f.chunk;
  snapshot_every = f.snapshot_every;
  confirmations = f.confirmations;
  reorg_window = f.reorg_window;
  poll_interval = f.poll_interval;
}

unfoldable pub serving_of : ServeFlags → Serving
serving_of f = record {
  rebuild_every = f.rebuild_every;
  compact_after = f.compact_after;
  compact_tail_percent = f.compact_tail_percent;
  keyword = f.keyword;
  listen = f.listen;
  web = f.web;
  batch = record {
    window = f.batch_window;
    max_queries = f.max_batch;
    queue_depth = f.queue_depth;
  };
  rate = record { per_minute = f.rate_limit; burst = f.rate_burst };
}

-- `ServeArgs::take`; `none` is its panic on another command.
unfoldable pub serve_args : Cmd → Option ServeArgs
serve_args (serve f) = some (record {
  rpc = f.rpc;
  state = f.state;
  from_block = f.from_block;
  follow = follow_args f;
  serving = serving_of f;
})
serve_args (follow f) = none
serve_args (sync f) = none
serve_args (lookup a s) = none
serve_args (stat s) = none
serve_args (sample n least s) = none

-- The times of polling and of waiting after a failure are not among the settings of the model.
unfoldable pub follow_config : ℕ → ℕ → Tip → ℕ → FollowConfig
follow_config chunk snapshot_every tip reorg_window = record {
  chunk = chunk;
  snapshot_every = 1000 * snapshot_every;
  tip = tip;
  reorg_window = reorg_window;
  reports_progress = Bool.false;
}

unfoldable pub progress_config : FollowArgs → FollowConfig
progress_config f = record (follow_config f.chunk f.snapshot_every f.confirmations f.reorg_window) {
  reports_progress = Bool.true;
}

unfoldable pub pir_config : ℕ → ℕ → ℕ → PirConfig
pir_config rebuild_every compact_after compact_tail_percent = record {
  rebuild_every = 1000 * rebuild_every;
  compact_after = compact_after;
  compact_tail_percent = compact_tail_percent;
}
