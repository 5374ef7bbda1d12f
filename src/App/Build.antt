-- ===== src/App/Build.antt =====
-- The commands of app/src/command.rs over the state of the application.
pub mod Made
pub mod Decoding
pub mod Seen
pub mod Extension
use op_move.Base.Partial.{◌>>=◌}
use op_move.Base.{
  ℕ, suc, ◌+◌, List, [], ◌∷◌, ◌++◌, map, filter, Option, none, some, Bool, true, false, not, B256,
  Bytes, PayloadId, insert, is_some, unwrap_or, if◌then◌else◌,
}
use op_move.Base.U256.{saturating_to_u64}
use op_move.Transaction.Types.{OpTxEnvelope}
use op_move.Gas.{l1_input_of_bytes}
use op_move.BaseFee.{base_fee_per_gas}
use op_move.Chain.Types.{
  Header, Block, ExtendedBlock, ExtendedTransaction, ExtendedReceipt, with_hash, with_value,
  with_payload_id, with_block_hash,
}
use op_move.Chain.Blocks
use op_move.Chain.Transactions
use op_move.Chain.Receipts
use op_move.Chain.Responses.{payload_by_id}
use op_move.App.Types.{
  Deps, Application, Payload, HeaderForExecution, ExecutionOutcome, with_payload_attributes,
  with_execution_outcome,
}
use op_move.App.Execute.{Candidate, execute_transactions}

module _ (d : Deps) where
  -- One transaction of the payload attributes. The layer-1 input is taken of the bytes that decoding
  -- leaves.
  unfoldable pub decode_transaction : Bytes → Option Candidate
  decode_transaction tx_bytes = do
    decoded ← d.decode tx_bytes
    some (record {
      tx_hash = d.keccak256 tx_bytes;
      tx = decoded.0;
      l1_cost_input = l1_input_of_bytes decoded.1;
    })

  -- `filter_map`.
  unfoldable pub decode_transactions : List Bytes → List Candidate
  unfolding decode_transaction
  decode_transactions [] = []
  decode_transactions (b ∷ bs) =
      let rest = decode_transactions bs in
      elim (decode_transaction b) [ none ↦ rest | some c ↦ c ∷ rest ]

  -- The transactions of the pool, in the order in which the map is drained.
  unfoldable pub drain : Application d → List Candidate
  drain app = map (λ e. record { tx_hash = e.0; tx = e.1.0; l1_cost_input = e.1.1 }) app.mem_pool

  -- Those of the attributes, then those of the pool, without the ones that have a receipt.
  unfoldable pub candidates : Application d → Payload → List Candidate
  unfolding decode_transactions drain
  candidates app attributes =
      filter (λ c. not (Receipts.contains d.receipts app.receipt_memory c.tx_hash))
        (decode_transactions attributes.transactions ++ drain app)

  -- `StorageBasedProvider::hash_by_number` of app/src/block_hash.rs. The RPC header of a block holds
  -- the block's hash.
  unfoldable pub hash_by_number : Application d → ℕ → Option B256
  hash_by_number app number = do
    b ← Blocks.by_height d.blocks app.storage.block_memory number
    some b.hash

  -- `enumerate().map(...)` over the transactions of the block, from index `i` on.
  unfoldable pub extended_transactions :
      Option ℕ → ℕ → B256 → ℕ → List OpTxEnvelope → List ExtendedTransaction
  extended_transactions base_fee block_number block_hash i [] = []
  extended_transactions base_fee block_number block_hash i (tx ∷ txs) =
      record {
        inner = tx;
        block_number = block_number;
        block_hash = block_hash;
        transaction_index = i;
        effective_gas_price = d.gas_price tx base_fee;
      }
      ∷ extended_transactions base_fee block_number block_hash (suc i) txs

  unfoldable pub execution_header : ExtendedBlock → Payload → HeaderForExecution
  execution_header parent attributes = record {
    number = parent.block.header.number + 1;
    timestamp = attributes.timestamp;
    prev_randao = attributes.prev_randao;
  }

  unfoldable pub new_header :
      ExtendedBlock → Payload → List OpTxEnvelope → ℕ → ExecutionOutcome → Header
  unfolding with_payload_attributes with_execution_outcome execution_header
  new_header parent attributes transactions base_fee outcome =
      with_execution_outcome
        (with_payload_attributes
          (record d.default_header {
            parent_hash = parent.hash;
            number = (execution_header parent attributes).number;
            transactions_root = d.transactions_root transactions;
            withdrawals_root = some (d.withdrawals_root attributes.withdrawals);
            base_fee_per_gas = some (saturating_to_u64 base_fee);
            blob_gas_used = some 0;
            excess_blob_gas = some 0;
          })
          attributes)
        outcome

  unfoldable pub new_block : Header → List OpTxEnvelope → ℕ → PayloadId → ExtendedBlock
  unfolding with_hash with_value with_payload_id
  new_block header transactions total_tip id =
      with_payload_id
        (with_value
          (with_hash (record { header = header; transactions = map d.trie_hash transactions })
            (d.block_hash header))
          total_tip)
        id

  -- The three memories after the block.
  unfoldable pub store :
      Application d
      → ExtendedBlock
      → List OpTxEnvelope
      → List ExtendedReceipt
      → d.State
      → Application d
  unfolding extended_transactions with_block_hash
  store app block transactions receipts state = record app {
    mem_pool = [];
    receipt_memory =
        Receipts.extend d.receipts app.receipt_memory
          (map (λ r. with_block_hash r block.hash) receipts);
    storage = record {
      block_memory = Blocks.add d.blocks app.storage.block_memory block;
      transaction_memory =
          Transactions.extend d.transactions d.trie_hash app.storage.transaction_memory (
            extended_transactions block.block.header.base_fee_per_gas block.block.header.number
              block.hash 0 transactions);
    };
    state = state;
  }

  -- The whole of the work, once the payload is known to be new.
  unfoldable pub build :
      Application d
      → Payload
      → PayloadId
      → Option (ExtendedBlock × List ExtendedReceipt × Application d)
  unfolding candidates hash_by_number execution_header new_header new_block store
  build app attributes id = do
    let transactions_with_metadata = candidates app attributes
    parent ← Blocks.last d.blocks app.storage.block_memory
    base_fee ←
        base_fee_per_gas app.gas_fee parent.block.header.gas_limit parent.block.header.gas_used
          (unwrap_or parent.block.header.base_fee_per_gas 0)
    let transactions = map (λ c. c.tx) transactions_with_metadata
    outcome ←
        execute_transactions d app.state transactions_with_metadata base_fee
          (execution_header parent attributes) (hash_by_number app)
    let header = new_header parent attributes transactions base_fee outcome.0
    let block = new_block header transactions outcome.0.total_tip id
    some (block, outcome.1, store app block transactions outcome.1 outcome.2)

  -- `Application::start_block_build`. A payload that is known already is not built again. The hook
  -- `on_payload` of the in-memory dependencies does nothing.
  unfoldable pub start_block_build : Application d → Payload → PayloadId → Option (Application d)
  unfolding build
  start_block_build app attributes id =
      let built = build app attributes id in
      if is_some (payload_by_id d.blocks d.transactions d.encode_2718 app.storage id)
      then some app
      else (do result ← built; some result.2)

  -- `Application::add_transaction`.
  unfoldable pub add_transaction : Application d → B256 → OpTxEnvelope → Application d
  add_transaction app tx_hash tx = record app {
    mem_pool = insert tx_hash (tx, l1_input_of_bytes (d.encode tx)) app.mem_pool;
  }

  -- `Application::genesis_update`.
  unfoldable pub genesis_update : Application d → ExtendedBlock → Application d
  genesis_update app block = record app {
    storage = record {
      block_memory = Blocks.add d.blocks app.storage.block_memory block;
      transaction_memory = app.storage.transaction_memory;
    };
  }

  -- `Command` and `CommandActor::handle_command`.
  pub data Command : Type 0 where
    start_block_build_command : Payload → PayloadId → Command
    add_transaction_command : B256 → OpTxEnvelope → Command
    genesis_update_command : ExtendedBlock → Command

  unfoldable pub handle_command : Application d → Command → Option (Application d)
  unfolding start_block_build add_transaction genesis_update
  handle_command app (start_block_build_command attributes id) = start_block_build app attributes id
  handle_command app (add_transaction_command tx_hash tx) = some (add_transaction app tx_hash tx)
  handle_command app (genesis_update_command block) = some (genesis_update app block)

  -- The loop of `CommandActor::work`, over the commands that arrive.
  unfoldable pub work : Application d → List Command → Option (Application d)
  unfolding handle_command
  work app [] = some app
  work app (msg ∷ msgs) = do app' ← handle_command app msg; work app' msgs
