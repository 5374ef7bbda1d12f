-- ===== src/App/Types.antt =====
-- What a command works on (app/src/input.rs, app/src/dependency.rs): the payload attributes, the
-- application's state, and what comes from outside the repository as a record of functions.
use op_move.Base.{ℕ, List, Option, some, Address, AccountAddress, B256, Bytes, HashMap}
use op_move.Error.{UserError, Result}
use op_move.Transaction.Types.{OpTxEnvelope, NormalizedExtendedTxEnvelope, Log}
use op_move.Transaction.Normalize.{Signatures}
use op_move.Gas.{L1GasFeeInput, L2GasFeeInput}
use op_move.BaseFee.{Eip1559GasFee}
use op_move.Chain.Types.{Header, ExtendedBlock, ExtendedTransaction, ExtendedReceipt}
use op_move.Chain.EvMap.{EvMap}
use op_move.Chain.Receipts.{ReceiptMemory}
use op_move.Chain.Responses.{SharedMemory}

pub record Withdrawal : Type 0 where
  pub index : ℕ
  pub validator_index : ℕ
  pub address : Address
  pub amount : ℕ

-- `Payload`, the attributes of the block to build.
pub record Payload : Type 0 where
  pub timestamp : ℕ
  pub prev_randao : B256
  pub suggested_fee_recipient : Address
  pub withdrawals : List Withdrawal
  pub parent_beacon_block_root : B256
  pub transactions : List Bytes
  pub gas_limit : ℕ

pub record HeaderForExecution : Type 0 where
  pub number : ℕ
  pub timestamp : ℕ
  pub prev_randao : B256

-- The outcome of a block's transactions: `ExecutionOutcome`.
pub record ExecutionOutcome : Type 0 where
  pub receipts_root : B256
  pub state_root : B256
  pub logs_bloom : ℕ
  pub gas_used : ℕ
  pub total_tip : ℕ

-- The outcome of one transaction: `TransactionExecutionOutcome` of execution/src/transaction.rs.
pub record TransactionExecutionOutcome (Changes : Type 0) : Type 0 where
  pub vm_outcome : Option UserError
  pub changes : Changes
  pub gas_used : ℕ
  pub l2_price : ℕ
  pub logs : List Log
  pub deployment : Option AccountAddress

-- What differs between transactions in `CanonicalExecutionInput` and `DepositExecutionInput`.
pub record ExecutionInput : Type 0 where
  pub tx : NormalizedExtendedTxEnvelope
  pub tx_hash : B256
  pub l1_cost : ℕ
  pub l2_input : L2GasFeeInput
  pub block_header : HeaderForExecution
  pub block_hash_lookup : ℕ → Option B256

-- The parts that the app calls: hashing and serialisation, merkle roots and blooms, the multi-maps
-- of the memories, and the execution of a transaction over the Move and EVM state.
pub record Deps : Type 1 where
  pub keccak256 : Bytes → B256
  -- `OpTxEnvelope::decode` with the bytes that it leaves.
  pub decode : Bytes → Option (OpTxEnvelope × Bytes)
  pub encode : OpTxEnvelope → Bytes
  pub encode_2718 : OpTxEnvelope → Bytes
  pub trie_hash : OpTxEnvelope → B256
  -- `Transaction::effective_gas_price` of the envelope.
  pub gas_price : OpTxEnvelope → Option ℕ → ℕ
  pub signatures : Signatures
  pub transactions_root : List OpTxEnvelope → B256
  pub withdrawals_root : List Withdrawal → B256
  pub receipts_root : List ExtendedReceipt → B256
  pub block_hash : Header → B256
  pub default_header : Header
  pub bloom_zero : ℕ
  pub logs_bloom : List Log → ℕ
  pub accrue_bloom : ℕ → ℕ → ℕ
  pub blocks : EvMap ExtendedBlock
  pub transactions : EvMap ExtendedTransaction
  pub receipts : EvMap ExtendedReceipt
  pub State : Type 0
  pub Changes : Type 0
  pub execute_transaction : State → ExecutionInput → Result (TransactionExecutionOutcome Changes)
  -- `State::apply` and `StorageTrieRepository::apply`; no result is a panic.
  pub apply : State → Changes → Option State
  pub state_root : State → B256

-- The fields of `Application` that commands change, and the base fee parameters.
pub record Application (d : Deps) : Type 0 where
  pub mem_pool : HashMap (OpTxEnvelope × L1GasFeeInput)
  pub gas_fee : Eip1559GasFee
  pub receipt_memory : ReceiptMemory d.receipts
  pub storage : SharedMemory d.blocks d.transactions
  pub state : d.State

-- `WithPayloadAttributes` and `WithExecutionOutcome`.
unfoldable pub with_payload_attributes : Header → Payload → Header
with_payload_attributes header payload = record header {
  beneficiary = payload.suggested_fee_recipient;
  gas_limit = payload.gas_limit;
  timestamp = payload.timestamp;
  parent_beacon_block_root = some payload.parent_beacon_block_root;
  mix_hash = payload.prev_randao;
}

unfoldable pub with_execution_outcome : Header → ExecutionOutcome → Header
with_execution_outcome header outcome = record header {
  state_root = outcome.state_root;
  receipts_root = outcome.receipts_root;
  logs_bloom = outcome.logs_bloom;
  gas_used = outcome.gas_used;
}
