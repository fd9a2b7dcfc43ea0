-- ===== src/Progress.antt =====
-- src/progress.rs: how far behind the chain the syncer is. The atomics are read and written one at
-- a time by one writer; a reader between two of its writes is not modelled.
use poulpy_eth_pir_demo.Base.{ℕ, ◌-◌, Option, none, some, ltb, if◌then◌else◌}

pub record Progress : Type 0 where
  pub cursor : ℕ
  pub tip : ℕ
  -- Unix seconds of the last recorded pass, and 0 until the first one.
  pub at : ℕ

pub record Sample : Type 0 where
  pub cursor : ℕ
  pub tip : ℕ
  pub lag_blocks : ℕ
  pub age_secs : Option ℕ

abbrev pub no_progress : Progress
no_progress = record { cursor = 0; tip = 0; at = 0 }

-- `record` of the source, at a reading of the clock.
unfoldable pub recorded_at : ℕ → ℕ → ℕ → Progress
recorded_at cursor tip now = record { cursor = cursor; tip = tip; at = now }

-- `-` stops at 0, as `saturating_sub` does.
unfoldable pub sample : ℕ → Progress → Sample
sample now p = record {
  cursor = p.cursor;
  tip = p.tip;
  lag_blocks = p.tip - p.cursor;
  age_secs = if ltb 0 p.at then some (now - p.at) else none;
}
