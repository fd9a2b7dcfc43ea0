-- ===== src/Follow/Stats.antt =====
-- src/follow/config.rs: the counts of one batch and of one sync call.
use poulpy_eth_pir_demo.Base.{ℕ, ◌+◌}

pub record BatchStats : Type 0 where
  pub logs : ℕ
  pub touched : ℕ
  pub inserted : ℕ
  pub updated : ℕ
  pub removed : ℕ
  pub unchanged : ℕ
  pub skipped_new_zero : ℕ

pub record SyncStats : Type 0 where
  pub blocks : ℕ
  pub batches : ℕ
  pub logs : ℕ
  pub touched : ℕ
  pub inserted : ℕ
  pub updated : ℕ
  pub removed : ℕ
  pub unchanged : ℕ
  pub skipped_new_zero : ℕ
  pub pruned : ℕ

-- `BatchStats { logs, ..Default::default() }`
abbrev pub only_logs : ℕ → BatchStats
only_logs n = record {
  logs = n;
  touched = 0;
  inserted = 0;
  updated = 0;
  removed = 0;
  unchanged = 0;
  skipped_new_zero = 0;
}

-- `SyncStats { blocks, ..Default::default() }`
abbrev pub only_blocks : ℕ → SyncStats
only_blocks n = record {
  blocks = n;
  batches = 0;
  logs = 0;
  touched = 0;
  inserted = 0;
  updated = 0;
  removed = 0;
  unchanged = 0;
  skipped_new_zero = 0;
  pruned = 0;
}

unfoldable pub fold : BatchStats → SyncStats → SyncStats
fold b s = record s {
  batches = s.batches + 1;
  logs = s.logs + b.logs;
  touched = s.touched + b.touched;
  inserted = s.inserted + b.inserted;
  updated = s.updated + b.updated;
  removed = s.removed + b.removed;
  unchanged = s.unchanged + b.unchanged;
  skipped_new_zero = s.skipped_new_zero + b.skipped_new_zero;
}
