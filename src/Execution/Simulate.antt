-- ===== src/Execution/Simulate.antt =====
-- execution/src/simulate.rs, `quick_get_nonce` of execution/src/nonces.rs and `quick_get_eth_balance`
-- of execution/src/eth_token.rs: queries and simulated transactions, each in a session of its own.
-- The current time and the random values of a simulation are arguments.
pub mod Nonce
use op_move.Base.{
  ℕ, Bool, true, false, not, ◌&&◌, List, [], Option, none, some, Address, AccountAddress, B256,
  Bytes, map, is_some, unwrap_or, ◌==◌, if◌then◌else◌,
}
use op_move.Base.U256.{u64_max}
use op_move.Primitives.{to_move_address}
use op_move.MoveTypes.{MoveTypeLayout}
use op_move.Error.{Error, invalid_transaction, unsupported_type, from_vm_error}
use op_move.Transaction.Types.{NormalizedEthTransaction, TransactionData, EntryFunction, script}
use op_move.Transaction.Parse.{Codec, Decoded, from_decoded, parse_from}
use op_move.Transaction.Normalize.{TransactionRequest, from_request, gas_limit}
use op_move.App.Types.{HeaderForExecution}
use op_move.Execution.Vm.{
  and, Vm, VmResult, Outcome, ok, err, panicked, of_result, Run, ◌>>=◌, pure, throw, lift, attempt,
}
use op_move.Execution.Session.{Session}
use op_move.Execution.SessionId.{SessionId}
use op_move.Execution.Calls.{execute_script}
use op_move.Execution.Deploy.{execute_evm_contract}
use op_move.Execution.Nonces.{get_account_nonce}
use op_move.Execution.Token.{get_eth_balance}
use op_move.Execution.Verify.{CanonicalVerificationInput, verify_transaction}
use op_move.Execution.Canonical.{
  Machine, CanonicalExecutionInput, Changes, TxOutcome, execute_canonical_transaction,
}

-- `SessionId::default`.
abbrev pub default_session_id : SessionId
default_session_id = record {
  txn_hash = 0;
  script_hash = none;
  chain_id = 0;
  user_txn_context = none;
  block_header = record { number = 0; timestamp = 0; prev_randao = 0 };
}

-- `unwrap_or_default` of a result, and `unwrap`.
abbrev pub or_default : Outcome ℕ → Outcome ℕ
or_default (err e) = ok 0
or_default (ok n) = ok n
or_default panicked = panicked

abbrev pub unwrapped : Outcome ℕ → Outcome ℕ
unwrapped (err e) = panicked
unwrapped (ok n) = ok n
unwrapped panicked = panicked

-- `DEFAULT_L2_GAS_MULTIPLIER` of execution/src/gas.rs.
abbrev pub default_l2_gas_multiplier : ℕ
default_l2_gas_multiplier = 1

module _ {vm : Vm} {session : Session vm} (machine : Machine session) where
  -- The gas of the two queries is not metered.
  unfoldable pub quick_get_nonce : AccountAddress → Outcome ℕ
  unfolding get_account_nonce
  quick_get_nonce account =
      or_default (get_account_nonce vm false account (machine.new_session default_session_id 0)).0

  unfoldable pub quick_get_eth_balance : AccountAddress → Outcome ℕ
  unfolding get_eth_balance
  quick_get_eth_balance account =
      unwrapped (get_eth_balance vm false account (machine.new_session default_session_id 0)).0

  -- The transaction of a request; with a sender and without a nonce it takes that of the account.
  unfoldable pub simulated_tx : TransactionRequest → Outcome NormalizedEthTransaction
  unfolding from_request quick_get_nonce
  simulated_tx request =
      let tx = from_request request in
      if is_some request.from && not (is_some request.nonce)
      then and (quick_get_nonce (to_move_address tx.signer))
          (λ nonce. ok (record tx { nonce = nonce }))
      else ok tx

  -- The input of the execution of a simulated transaction.
  unfoldable pub simulation_input :
      ℕ → AccountAddress → ℕ → ℕ → B256 → B256 → NormalizedEthTransaction → CanonicalExecutionInput
  simulation_input chain_id eth_treasury block_height now randao tx_hash tx = record {
    tx = tx;
    tx_hash = tx_hash;
    genesis_chain_id = chain_id;
    l1_cost = 1;
    l2_multiplier = default_l2_gas_multiplier;
    l2_input = record { gas_limit = u64_max; effective_gas_price = 0 };
    eth_treasury = eth_treasury;
    block_header = record { number = block_height; timestamp = now; prev_randao = randao };
  }

  module _ (codec : Codec) (chain_id : ℕ) (eth_treasury : AccountAddress)
      -- `execute_function_bypass_visibility` of a function of a user, and the encoding of results.
      (execute_function : EntryFunction
        → vm.State
        → VmResult (List (Bytes × MoveTypeLayout)) × vm.State)
      (to_bytes : List Bytes → Decoded Bytes) where
    unfoldable pub simulate_transaction :
        ℕ → B256 → B256 → TransactionRequest → ℕ → Outcome (TxOutcome machine)
    unfolding simulated_tx simulation_input execute_canonical_transaction
    simulate_transaction now randao tx_hash request block_height = and (simulated_tx request) (λ tx.
        execute_canonical_transaction machine codec
          (simulation_input chain_id eth_treasury block_height now randao tx_hash tx))

    -- The match on the data of a call.
    unfoldable pub call_data : NormalizedEthTransaction → TransactionData → Run vm Bytes
    unfolding execute_script execute_evm_contract
    call_data tx (TransactionData.entry_function entry_fn) = do
      return_values ← attempt from_vm_error (execute_function entry_fn)
      lift (of_result (from_decoded (to_bytes (map (λ v. v.0) return_values))))
    call_data tx (TransactionData.script_or_deployment (script s)) = do
      _ ← execute_script session s (to_move_address tx.signer)
      pure []
    call_data tx (TransactionData.l2_contract contract) = do
      outcome ←
          execute_evm_contract session (to_move_address tx.signer) (to_move_address contract)
            tx.value tx.input
      pure outcome.output
    call_data tx (TransactionData.evm_contract address contract_data) = do
      outcome ←
          execute_evm_contract session (to_move_address tx.signer) (to_move_address address)
            tx.value contract_data
      pure outcome.output
    call_data tx _ = throw (invalid_transaction unsupported_type)

    -- A call pays no fees.
    unfoldable pub call_in_session : NormalizedEthTransaction → TransactionData → Run vm Bytes
    unfolding verify_transaction call_data
    call_in_session tx tx_data = do
      _ ← verify_transaction vm (record {
        tx = tx;
        genesis_chain_id = chain_id;
        l1_cost = 0;
        l2_cost = 0;
        eth_treasury = eth_treasury;
      })
      call_data tx tx_data

    unfoldable pub call_transaction : TransactionRequest → Outcome Bytes
    unfolding simulated_tx parse_from call_in_session gas_limit
    call_transaction request = and (simulated_tx request) (λ tx.
        and (of_result (parse_from codec tx)) (λ tx_data.
          (call_in_session tx tx_data (machine.new_session default_session_id (gas_limit tx))).0))
