-- ===== src/Transaction.antt =====
-- execution/src/transaction.rs: the envelopes that arrive, the normalised transaction that is
-- executed, and the outcome of an execution. The children read the envelopes and the call data.
pub mod Types
pub mod Normalize
pub mod Parse
pub mod Receipt
pub mod Reading
