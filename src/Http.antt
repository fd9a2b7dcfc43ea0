-- ===== src/Http.antt =====
-- src/http: the query endpoint, as far as it decides anything.
pub mod Batch
pub mod Limit
pub mod Query
pub mod Reply
pub mod Routes
pub mod Files
