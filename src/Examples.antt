-- ===== src/Examples.antt =====
-- Concrete runs of the definitions, and the theorems at concrete inputs.
mod Records
mod Reports
mod Requests
mod Files
mod Logs
mod Passes
mod Services
mod Chunks
mod Honest
mod Served
