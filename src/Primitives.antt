-- ===== src/Primitives.antt =====
-- shared/src/primitives.rs: conversions between the address types and the integer types. An address
-- is the list of its bytes here; elsewhere it is the number that they spell (`Primitives/Bytes`).
mod Bytes
mod Saturation
unfoldable pub use Bytes.*
unfoldable pub use Saturation.*
