-- ===== src/Chain/Types.antt =====
-- The stored values of the blockchain crate: headers and blocks (block/write.rs), transactions
-- (transaction/write.rs) and receipts (receipt/write.rs).
use op_move.Base.{ℕ, List, Option, Address, B256, Bytes, PayloadId}
use op_move.Transaction.Types.{OpTxEnvelope, OpReceiptEnvelope}
use op_move.Gas.{L1BlockInfo}

-- `alloy::consensus::Header`.
pub record Header : Type 0 where
  pub parent_hash : B256
  pub ommers_hash : B256
  pub beneficiary : Address
  pub state_root : B256
  pub transactions_root : B256
  pub receipts_root : B256
  pub logs_bloom : ℕ
  pub difficulty : ℕ
  pub number : ℕ
  pub gas_limit : ℕ
  pub gas_used : ℕ
  pub timestamp : ℕ
  pub extra_data : Bytes
  pub mix_hash : B256
  pub nonce : ℕ
  pub base_fee_per_gas : Option ℕ
  pub withdrawals_root : Option B256
  pub blob_gas_used : Option ℕ
  pub excess_blob_gas : Option ℕ
  pub parent_beacon_block_root : Option B256
  pub requests_hash : Option B256

pub record Block : Type 0 where
  pub header : Header
  pub transactions : List B256

pub record ExtendedBlock : Type 0 where
  pub hash : B256
  pub value : ℕ
  pub payload_id : PayloadId
  pub block : Block

-- `Block::with_hash`: no value and payload id 0 yet.
unfoldable pub with_hash : Block → B256 → ExtendedBlock
with_hash block hash = record { hash = hash; value = 0; payload_id = 0; block = block }

unfoldable pub with_value : ExtendedBlock → ℕ → ExtendedBlock
with_value b value = record b { value = value }

unfoldable pub with_payload_id : ExtendedBlock → PayloadId → ExtendedBlock
with_payload_id b payload_id = record b { payload_id = payload_id }

abbrev pub transaction_hashes : ExtendedBlock → List B256
transaction_hashes b = b.block.transactions

pub record ExtendedTransaction : Type 0 where
  pub inner : OpTxEnvelope
  pub block_number : ℕ
  pub block_hash : B256
  pub transaction_index : ℕ
  pub effective_gas_price : ℕ

pub record ExtendedReceipt : Type 0 where
  pub transaction_hash : B256
  pub transaction_index : ℕ
  pub to : Option Address
  pub from : Address
  pub receipt : OpReceiptEnvelope
  pub l1_block_info : Option L1BlockInfo
  pub gas_used : ℕ
  pub l2_gas_price : ℕ
  pub contract_address : Option Address
  pub logs_offset : ℕ
  pub block_hash : B256
  pub block_number : ℕ
  pub block_timestamp : ℕ

-- `ExtendedReceipt::with_block_hash`.
unfoldable pub with_block_hash : ExtendedReceipt → B256 → ExtendedReceipt
with_block_hash r block_hash = record r { block_hash = block_hash }
