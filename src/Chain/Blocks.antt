-- ===== src/Chain/Blocks.antt =====
-- blockchain/src/block/in_memory.rs: the memory of blocks, with its three indices over one multi-map
-- each.
pub mod Height
use op_move.Base.Partial.{◌>>=◌}
use op_move.Base.{ℕ, Option, none, some, List, [], ◌∷◌, B256, PayloadId}
use op_move.Base.U256.{checked_sub}
use op_move.Chain.Types.{ExtendedBlock}
use op_move.Chain.EvMap.{EvMap}

pub record BlockMemory (m : EvMap ExtendedBlock) : Type 0 where
  pub hashes : m.Handle
  pub heights : m.Handle
  pub payload_ids : m.Handle

module _ (m : EvMap ExtendedBlock) where
  unfoldable pub new : BlockMemory m
  new = record { hashes = m.empty; heights = m.empty; payload_ids = m.empty }

  unfoldable pub add : BlockMemory m → ExtendedBlock → BlockMemory m
  add mem block = record {
    hashes = m.refresh (m.insert block.hash block mem.hashes);
    heights = m.refresh (m.insert block.block.header.number block mem.heights);
    payload_ids = m.refresh (m.insert block.payload_id block mem.payload_ids);
  }

  unfoldable pub by_hash : BlockMemory m → B256 → Option ExtendedBlock
  by_hash mem hash = m.get_one mem.hashes hash

  unfoldable pub by_payload_id : BlockMemory m → PayloadId → Option ExtendedBlock
  by_payload_id mem payload_id = m.get_one mem.payload_ids payload_id

  unfoldable pub map_by_height {ℓ} :
      {U : Type ℓ} → BlockMemory m → ℕ → (ExtendedBlock → U) → Option U
  map_by_height mem height f = do block ← m.get_one mem.heights height; some (f block)

  unfoldable pub by_height : BlockMemory m → ℕ → Option ExtendedBlock
  unfolding map_by_height
  by_height mem height = map_by_height mem height (λ b. b)

  -- The height is the number of heights on record, less one.
  unfoldable pub height : BlockMemory m → Option ℕ
  height mem = checked_sub (m.len mem.heights) 1

  unfoldable pub last : BlockMemory m → Option ExtendedBlock
  unfolding by_height height
  last mem = do h ← height mem; by_height mem h

  -- The blocks of a chain, added in order.
  unfoldable pub add_all : BlockMemory m → List ExtendedBlock → BlockMemory m
  add_all mem [] = mem
  add_all mem (block ∷ blocks) = add_all (add mem block) blocks
