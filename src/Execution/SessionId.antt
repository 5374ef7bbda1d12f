-- ===== src/Execution/SessionId.antt =====
-- execution/src/session_id.rs: the identifier of a session of the VM.
use op_move.Base.{ℕ, ◌%◌, Option, none, some, AccountAddress, B256, ◌==◌, if◌then◌else◌}
use op_move.Primitives.{to_move_address, to_saturated_u64}
use op_move.Transaction.Types.{NormalizedEthTransaction, TxDeposit, EntryFunction}
use op_move.Transaction.Normalize.{gas_limit}
use op_move.App.Types.{HeaderForExecution}

-- The chain whose Aptos number is 1 (genesis/src/config.rs).
abbrev pub chain_id : ℕ
chain_id = 404

-- The last byte of the number of any other chain.
unfoldable pub u8_chain_id : ℕ → ℕ
u8_chain_id genesis_chain_id = if genesis_chain_id == chain_id then 1 else genesis_chain_id % 256

-- The one limb, or the largest 64-bit value.
unfoldable pub u64_gas_price : ℕ → ℕ
unfolding to_saturated_u64
u64_gas_price price = to_saturated_u64 price

-- `UserTransactionContext`; there are no secondary signers and no multisig payload.
pub record UserTransactionContext : Type 0 where
  pub sender : AccountAddress
  pub gas_payer : AccountAddress
  pub max_gas_amount : ℕ
  pub gas_unit_price : ℕ
  pub chain_id : ℕ
  pub entry_function_payload : Option EntryFunction

pub record SessionId : Type 0 where
  pub txn_hash : B256
  pub script_hash : Option B256
  pub chain_id : ℕ
  pub user_txn_context : Option UserTransactionContext
  pub block_header : HeaderForExecution

unfoldable pub new_from_canonical :
    NormalizedEthTransaction
    → Option EntryFunction
    → B256
    → ℕ
    → HeaderForExecution
    → Option B256
    → SessionId
unfolding u8_chain_id u64_gas_price gas_limit
new_from_canonical tx maybe_entry_fn tx_hash genesis_chain_id block_header script_hash = record {
  txn_hash = tx_hash;
  script_hash = script_hash;
  chain_id = u8_chain_id genesis_chain_id;
  user_txn_context = some (record {
    sender = to_move_address tx.signer;
    gas_payer = to_move_address tx.signer;
    max_gas_amount = gas_limit tx;
    gas_unit_price = u64_gas_price tx.max_fee_per_gas;
    chain_id = u8_chain_id genesis_chain_id;
    entry_function_payload = maybe_entry_fn;
  });
  block_header = block_header;
}

unfoldable pub new_from_deposited : TxDeposit → B256 → ℕ → HeaderForExecution → SessionId
unfolding u8_chain_id
new_from_deposited tx tx_hash genesis_chain_id block_header = record {
  txn_hash = tx_hash;
  script_hash = none;
  chain_id = u8_chain_id genesis_chain_id;
  user_txn_context = some (record {
    sender = to_move_address tx.from;
    gas_payer = to_move_address tx.from;
    max_gas_amount = tx.gas_limit;
    gas_unit_price = 0;
    chain_id = u8_chain_id genesis_chain_id;
    entry_function_payload = none;
  });
  block_header = block_header;
}
