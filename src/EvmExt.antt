-- ===== src/EvmExt.antt =====
-- The EVM extension of the Move VM (evm-ext/src): what crosses between the two machines.
pub mod Words
pub mod Results
pub mod RoundTrip
pub mod Events
pub mod Sequences
pub mod Storage
pub mod Solidity
pub mod BlockHashes
