-- ===== src/Chain/Responses.antt =====
-- The answers built from a stored block: block responses (block/read.rs), payload responses
-- (payload/read.rs, payload/in_memory.rs) over the shared memory of blocks and transactions
-- (in_memory.rs). The serialisation of an envelope, `encode_2718`, is a parameter.
use op_move.Base.Partial.{◌>>=◌}
use op_move.Base.{
  ℕ, Bool, Option, some, List, map, Address, B256, Bytes, PayloadId, unwrap_or, if◌then◌else◌,
}
use op_move.Transaction.Types.{OpTxEnvelope}
use op_move.Chain.Types.{Header, ExtendedBlock, ExtendedTransaction, transaction_hashes}
use op_move.Chain.EvMap.{EvMap}
use op_move.Chain.Blocks.{BlockMemory, by_hash, by_payload_id, by_height, height}
use op_move.Chain.Transactions.{TransactionMemory, by_hashes}

pub record SharedMemory (bm : EvMap ExtendedBlock) (tm : EvMap ExtendedTransaction) : Type 0 where
  pub block_memory : BlockMemory bm
  pub transaction_memory : TransactionMemory tm

-- `BlockTransactions`.
pub data BlockTransactions : Type 0 where
  hashes : List B256 → BlockTransactions
  full : List ExtendedTransaction → BlockTransactions

pub record BlockResponse : Type 0 where
  pub transactions : BlockTransactions
  pub hash : B256
  pub header : Header

unfoldable pub from_block_with_transaction_hashes : ExtendedBlock → BlockResponse
from_block_with_transaction_hashes b = record {
  transactions = hashes b.block.transactions;
  hash = b.hash;
  header = b.block.header;
}

unfoldable pub from_block_with_transactions :
    ExtendedBlock → List ExtendedTransaction → BlockResponse
from_block_with_transactions b transactions = record {
  transactions = full transactions;
  hash = b.hash;
  header = b.block.header;
}

-- The fields that the program always leaves empty, withdrawals and blobs, are not listed.
pub record ExecutionPayload : Type 0 where
  pub parent_hash : B256
  pub fee_recipient : Address
  pub state_root : B256
  pub receipts_root : B256
  pub logs_bloom : ℕ
  pub prev_randao : B256
  pub block_number : ℕ
  pub gas_limit : ℕ
  pub gas_used : ℕ
  pub timestamp : ℕ
  pub extra_data : Bytes
  pub base_fee_per_gas : ℕ
  pub block_hash : B256
  pub transactions : List Bytes
  pub blob_gas_used : ℕ
  pub excess_blob_gas : ℕ

pub record PayloadResponse : Type 0 where
  pub execution_payload : ExecutionPayload
  pub block_value : ℕ
  pub parent_beacon_block_root : B256

module _ (encode_2718 : OpTxEnvelope → Bytes) where
  unfoldable pub execution_payload : ExtendedBlock → List OpTxEnvelope → ExecutionPayload
  execution_payload b transactions = record {
    parent_hash = b.block.header.parent_hash;
    fee_recipient = b.block.header.beneficiary;
    state_root = b.block.header.state_root;
    receipts_root = b.block.header.receipts_root;
    logs_bloom = b.block.header.logs_bloom;
    prev_randao = b.block.header.mix_hash;
    block_number = b.block.header.number;
    gas_limit = b.block.header.gas_limit;
    gas_used = b.block.header.gas_used;
    timestamp = b.block.header.timestamp;
    extra_data = b.block.header.extra_data;
    base_fee_per_gas = unwrap_or b.block.header.base_fee_per_gas 0;
    block_hash = b.hash;
    transactions = map encode_2718 transactions;
    blob_gas_used = unwrap_or b.block.header.blob_gas_used 0;
    excess_blob_gas = unwrap_or b.block.header.excess_blob_gas 0;
  }

  unfoldable pub payload_response : ExtendedBlock → List OpTxEnvelope → PayloadResponse
  unfolding execution_payload
  payload_response b transactions = record {
    execution_payload = execution_payload b transactions;
    block_value = b.value;
    parent_beacon_block_root = unwrap_or b.block.header.parent_beacon_block_root 0;
  }

module _ (bm : EvMap ExtendedBlock) (tm : EvMap ExtendedTransaction) where
  -- `InMemoryBlockQueries`.
  pub block_response : SharedMemory bm tm → Bool → ExtendedBlock → BlockResponse
  unfolding from_block_with_transactions from_block_with_transaction_hashes
  block_response mem include_transactions b =
      if include_transactions
      then from_block_with_transactions b
          (by_hashes tm mem.transaction_memory (transaction_hashes b))
      else from_block_with_transaction_hashes b

  unfoldable pub block_by_hash : SharedMemory bm tm → B256 → Bool → Option BlockResponse
  unfolding block_response
  block_by_hash mem hash include_transactions = do
    b ← by_hash bm mem.block_memory hash
    some (block_response mem include_transactions b)

  unfoldable pub block_by_height : SharedMemory bm tm → ℕ → Bool → Option BlockResponse
  unfolding block_response
  block_by_height mem h include_transactions = do
    b ← by_height bm mem.block_memory h
    some (block_response mem include_transactions b)

  unfoldable pub latest : SharedMemory bm tm → Option ℕ
  latest mem = height bm mem.block_memory

  module _ (encode_2718 : OpTxEnvelope → Bytes) where
    -- `InMemoryPayloadQueries`.
    unfoldable pub block_into_payload : SharedMemory bm tm → ExtendedBlock → PayloadResponse
    block_into_payload mem b =
        payload_response encode_2718 b
          (map (λ v. v.inner) (by_hashes tm mem.transaction_memory (transaction_hashes b)))

    unfoldable pub payload_by_hash : SharedMemory bm tm → B256 → Option PayloadResponse
    unfolding block_into_payload
    payload_by_hash mem block_hash = do
      b ← by_hash bm mem.block_memory block_hash
      some (block_into_payload mem b)

    unfoldable pub payload_by_id : SharedMemory bm tm → PayloadId → Option PayloadResponse
    unfolding block_into_payload
    payload_by_id mem id = do
      b ← by_payload_id bm mem.block_memory id
      some (block_into_payload mem b)
