-- ===== src/Execution.antt =====
-- The execution crate around the Move VM: nonces, the base token, and the verification of a
-- transaction (execution/src).
pub mod Simulate
pub mod Vm
pub mod Inversion
pub mod NotUser
pub mod Session
pub mod Calls
pub mod Deploy
pub mod SessionId
pub mod Canonical
pub mod Deposited
pub mod Nonces
pub mod Token
pub mod Verify
