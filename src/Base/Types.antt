-- ===== src/Base/Types.antt =====
-- The primitive types of shared/src/primitives.rs as the other modules name them. Hashes, addresses
-- and machine words are the numbers that their bytes spell, big-endian.
use Prim.Native.Nat.{ℕ}
use mathlib.Core.List.{List}

abbrev pub Address : Type 0
Address = ℕ

abbrev pub AccountAddress : Type 0
AccountAddress = ℕ

abbrev pub B256 : Type 0
B256 = ℕ

abbrev pub Bytes : Type 0
Bytes = List ℕ

abbrev pub PayloadId : Type 0
PayloadId = ℕ
