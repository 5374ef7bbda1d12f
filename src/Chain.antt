-- ===== src/Chain.antt =====
-- The blockchain crate: what is kept of blocks, transactions and receipts, and the queries on them.
pub mod StateQueries
pub mod Types
pub mod EvMap
pub mod Blocks
pub mod Receipts
pub mod Transactions
pub mod Responses
