-- ===== src/Follow.antt =====
-- src/follow: the chain syncer. Logging is not modelled anywhere below.
pub mod Stats
pub mod Apply
pub mod Logs
pub mod Watch
pub mod Syncer
pub mod Preflight
pub mod Loop
