-- ===== src/Examples.antt =====
-- Concrete instances of what the development takes as parameters, and the theorems at concrete
-- inputs.
pub mod Maps
pub mod Tags
pub mod Sessions
pub mod Evm
pub mod Engine
pub mod Simulations
pub mod Outside
pub mod Fees
pub mod Stores
pub mod Calls
pub mod Databases
pub mod Backends
pub mod States
pub mod Blocks
pub mod Nonces
pub mod Payments
