-- ===== src/Chain.antt =====
-- src/chain: what the service reads from an Ethereum node.
pub mod Touch
pub mod Events
pub mod Node
pub mod Rpc
pub mod Tip
