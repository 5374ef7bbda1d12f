-- ===== src/App/Queries.antt =====
-- app/src/query.rs: the queries of the reader over the shared memory. The queries of the state and the
-- simulation of transactions are parameters; a panic is the outer `none`.
pub mod Heights
use op_move.Base.Partial.{◌>>=◌}
use op_move.Base.{
  ℕ, zero, suc, ◌+◌, ◌/◌, ◌≡◌, ◌<◌, ◌≤◌, refl, ◌∙◌, sym, ap, Bool, true, false, List, [], ◌∷◌, ◌++◌,
  Option, none, some, B256, arith,
}
use op_move.Error
use op_move.Error.{Error, Result}
use op_move.Chain.Types.{ExtendedBlock, ExtendedTransaction}
use op_move.Chain.EvMap.{EvMap}
use op_move.Chain.Responses.{SharedMemory, BlockResponse, block_by_hash, block_by_height, latest}

-- `BlockNumberOrTag` and `BlockId`.
pub data BlockNumberOrTag : Type 0 where
  latest_block finalized safe earliest pending : BlockNumberOrTag
  number : ℕ → BlockNumberOrTag

pub data BlockId : Type 0 where
  block_number : BlockNumberOrTag → BlockId
  block_hash : B256 → BlockId

module _ (bm : EvMap ExtendedBlock) (tm : EvMap ExtendedTransaction) where
  unfoldable pub resolve_height : SharedMemory bm tm → BlockNumberOrTag → Option ℕ
  unfolding latest
  resolve_height mem (BlockNumberOrTag.number height) = some height
  resolve_height mem BlockNumberOrTag.earliest = some 0
  resolve_height mem _ = latest bm tm mem

  unfoldable pub height_from_block_id : SharedMemory bm tm → BlockId → Option ℕ
  unfolding resolve_height block_by_hash
  height_from_block_id mem (BlockId.block_number height) = resolve_height mem height
  height_from_block_id mem (BlockId.block_hash h) = do
    response ← block_by_hash bm tm mem h false
    some response.header.number

  -- `block_by_height`.
  unfoldable pub query_by_height :
      SharedMemory bm tm → BlockNumberOrTag → Bool → Option BlockResponse
  unfolding resolve_height block_by_height
  query_by_height mem height include_transactions = do
    h ← resolve_height mem height
    block_by_height bm tm mem h include_transactions

  -- `block_number`, which panics without a block.
  unfoldable pub query_block_number : SharedMemory bm tm → Option ℕ
  unfolding latest
  query_block_number mem = latest bm tm mem

  -- `balance_by_height` and `nonce_by_height`, over `balance_at` and `nonce_at` of one account.
  unfoldable pub query_at_height : SharedMemory bm tm → (ℕ → Option ℕ) → BlockNumberOrTag → Option ℕ
  unfolding resolve_height
  query_at_height mem value_at height = do h ← resolve_height mem height; value_at h

  -- The gas of a simulation with a third of it added.
  abbrev pub buffered : Result ℕ → Result ℕ
  buffered (Error.err e) = Error.err e
  buffered (Error.ok gas_used) = Error.ok (gas_used + gas_used / 3)

  -- The height that the simulation counts as the block's.
  unfoldable pub simulated_height : SharedMemory bm tm → BlockNumberOrTag → Option ℕ
  unfolding latest
  simulated_height mem (BlockNumberOrTag.number height) = some height
  simulated_height mem BlockNumberOrTag.earliest = some 0
  simulated_height mem _ = latest bm tm mem

  -- `estimate_gas`, over the simulation at a resolver's height and a block's height.
  unfoldable pub estimate_gas :
      SharedMemory bm tm → (ℕ → ℕ → Result ℕ) → BlockNumberOrTag → Option (Result ℕ)
  unfolding resolve_height simulated_height
  estimate_gas mem simulate tag = do
    height ← resolve_height mem tag
    block_height ← simulated_height mem tag
    some (buffered (simulate height block_height))
