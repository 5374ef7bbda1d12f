-- ===== src/Execution/Canonical.antt =====
-- execution/src/canonical.rs: `execute_canonical_transaction`, from the call data to the outcome.
pub mod Errors
pub mod Refund
pub mod Verified
use op_move.Base.{
  ℕ, ◌-◌, Bool, true, false, List, [], ◌∷◌, ◌++◌, Option, none, some, Address, AccountAddress, B256,
  Bytes, length, map,
}
use op_move.Primitives.{to_move_address}
use op_move.MoveTypes.{VmError, TypeTag, MoveValue}
use op_move.Error
use op_move.Error.{
  Error, Result, UserError, user, eth_token_invariant_violation, refund_always_succeeds,
  from_vm_error,
}
use op_move.Transaction.Types.{
  NormalizedEthTransaction, TransactionData, ScriptOrDeployment, script, module_code, evm_contract,
  Log,
}
use op_move.Transaction.Parse.{Codec, parse_from, maybe_entry_fn, script_hash}
use op_move.Gas.{GasCounters, total_gas_used, L2GasFeeInput, l2_fee}
use op_move.App.Types.{HeaderForExecution, TransactionExecutionOutcome}
use op_move.Execution.Vm.{
  and, caught, Vm, VmResult, Outcome, ok, err, panicked, of_result, map_err, expect, Run, ◌>>=◌,
  pure, lift, attempt, inspect,
}
use op_move.Execution.Session.{Session}
use op_move.Execution.SessionId.{SessionId, new_from_canonical}
use op_move.Execution.Calls.{from_partial_vm_error, execute_entry_function, execute_script}
use op_move.Execution.Deploy.{deploy_evm_contract, execute_evm_contract, deploy_module}
use op_move.Execution.Token.{TransferArgs, transfer_eth, replicate_transfers, refund_gas_cost}
use op_move.Execution.Verify.{CanonicalVerificationInput, verify_transaction, paid}
use op_move.EvmExt.Events.{
  EthTransfer, EthTransfersLogger, ContractEvent, logs_of_events, take_origins, take_transfers,
}

-- `EVM_NATIVE_ADDRESS`.
abbrev pub evm_native_address : AccountAddress
evm_native_address = 1

-- A session from its creation to its end, with its gas meter.
pub record Machine {vm : Vm} (session : Session vm) : Type 1 where
  -- `create_vm_session` with a meter for this limit.
  pub new_session : SessionId → ℕ → vm.State
  -- The charges for publishing a module: for the request, and for loading it.
  pub charge_publish_request : ℕ → vm.State → VmResult (Unit {0}) × vm.State
  pub charge_dependency : AccountAddress → ℕ → vm.State → VmResult (Unit {0}) × vm.State
  pub gas_counters : vm.State → GasCounters
  pub scaling_factor : ℕ
  -- The logger of the transfers that the EVM made.
  pub eth_transfers_logger : vm.State → EthTransfersLogger
  -- `finish_with_extensions`, with the events, and the changes of accounts and storage by the EVM.
  pub StorageChanges : Type 0
  pub finish :
      vm.State
      → VmResult (session.ChangeSet × List ContractEvent × session.ChangeSet × StorageChanges)
  pub squash : session.ChangeSet → session.ChangeSet → Option session.ChangeSet
  pub name_hash : TypeTag → B256
  pub deserialize_logs : Bytes → Option MoveValue

-- `Changes` of execution/src/transaction.rs.
pub record Changes (M S : Type 0) : Type 0 where
  pub move_vm : M
  pub evm : S

abbrev pub to_transfer : EthTransfer → TransferArgs
to_transfer t = record { from = t.from; to = t.to; amount = t.amount }

-- `CanonicalExecutionInput`, by what differs between transactions.
pub record CanonicalExecutionInput : Type 0 where
  pub tx : NormalizedEthTransaction
  pub tx_hash : B256
  pub genesis_chain_id : ℕ
  pub l1_cost : ℕ
  pub l2_multiplier : ℕ
  pub l2_input : L2GasFeeInput
  pub eth_treasury : AccountAddress
  pub block_header : HeaderForExecution

module _ {vm : Vm} {session : Session vm} (machine : Machine session) where
  unfoldable pub charge_new_module_processing : AccountAddress → ℕ → Run vm (Unit {0})
  charge_new_module_processing address module_size = do
    _ ← attempt from_partial_vm_error (machine.charge_publish_request module_size)
    attempt from_partial_vm_error (machine.charge_dependency address module_size)

  -- What a transaction deploys, with the changes that this makes.
  abbrev pub Deployment : Type 0
  Deployment = Option AccountAddress × session.ChangeSet

  abbrev nothing : Deployment
  nothing = (none, session.no_changes)

  -- The match on the data.
  unfoldable pub execute_data : CanonicalExecutionInput → TransactionData → Run vm Deployment
  unfolding execute_entry_function execute_script charge_new_module_processing deploy_module
      deploy_evm_contract transfer_eth execute_evm_contract
  execute_data input (TransactionData.entry_function entry_fn) = do
    _ ← execute_entry_function session entry_fn (to_move_address input.tx.signer)
    pure nothing
  execute_data input (TransactionData.script_or_deployment (script s)) = do
    _ ← execute_script session s (to_move_address input.tx.signer)
    pure nothing
  execute_data input (TransactionData.script_or_deployment (module_code code)) = do
    _ ← charge_new_module_processing (to_move_address input.tx.signer) (length code)
    (id, writes) ← deploy_module session code (to_move_address input.tx.signer)
    changes ← lift (expect (machine.squash session.no_changes writes))
    pure (some (to_move_address input.tx.signer), changes)
  execute_data input (TransactionData.script_or_deployment (evm_contract bytecode)) = do
    address ← deploy_evm_contract session bytecode input.tx.value (to_move_address input.tx.signer)
    pure (some (to_move_address address), session.no_changes)
  execute_data input (TransactionData.eoa_base_token_transfer to) = do
    _ ← transfer_eth vm true (record {
      from = to_move_address input.tx.signer;
      to = to_move_address to;
      amount = input.tx.value;
    })
    pure nothing
  execute_data input (TransactionData.l2_contract contract) = do
    _ ←
        execute_evm_contract session (to_move_address input.tx.signer) (to_move_address contract)
          input.tx.value input.tx.input
    pure nothing
  execute_data input (TransactionData.evm_contract address contract_data) = do
    _ ←
        execute_evm_contract session (to_move_address input.tx.signer) (to_move_address address)
          input.tx.value contract_data
    pure nothing

  -- `replicate_transfers`, from what the logger holds.
  unfoldable pub replicate : Run vm (Unit {0})
  unfolding replicate_transfers take_origins take_transfers
  replicate s =
      let logger = machine.eth_transfers_logger s in
      replicate_transfers vm true evm_native_address (take_origins logger).0
        (map to_transfer (take_transfers logger).0) s

  unfoldable pub replicate_after : Result Deployment → Run vm Deployment
  unfolding replicate
  replicate_after (Error.err e) = lift (err e)
  replicate_after (Error.ok deployment) = do _ ← replicate; pure deployment

  abbrev pub deploy_changes : Result Deployment → session.ChangeSet
  deploy_changes (Error.ok (deployment, writes)) = writes
  deploy_changes (Error.err e) = session.no_changes

  -- The end of the session: its changes with those of the accounts by the EVM, and the logs.
  unfoldable pub collect_evm :
      session.ChangeSet × List ContractEvent × session.ChangeSet × machine.StorageChanges
      → Outcome (Changes session.ChangeSet machine.StorageChanges × List Log)
  unfolding logs_of_events
  collect_evm (changes, events, accounts, storage) =
      and (expect (logs_of_events machine.name_hash machine.deserialize_logs events)) (λ logs.
        and (expect (machine.squash changes accounts))
          (λ merged. ok (record { move_vm = merged; evm = storage }, logs)))

  -- The same with the changes by a deployment.
  unfoldable pub collect :
      session.ChangeSet
      → session.ChangeSet × List ContractEvent × session.ChangeSet × machine.StorageChanges
      → Outcome (Changes session.ChangeSet machine.StorageChanges × List Log)
  unfolding collect_evm
  collect deployed finished = and (collect_evm finished) (λ collected.
      and (expect (machine.squash collected.0.move_vm deployed))
        (λ all. ok (record collected.0 { move_vm = all }, collected.1)))

  abbrev pub TxOutcome : Type 0
  TxOutcome = TransactionExecutionOutcome (Changes session.ChangeSet machine.StorageChanges)

  -- A user error still makes an outcome and consumes gas.
  unfoldable pub conclude :
      ℕ
      → ℕ
      → Result Deployment
      → Changes session.ChangeSet machine.StorageChanges × List Log
      → Outcome TxOutcome
  conclude gas_used price (Error.ok (deployment, writes)) (changes, logs) = ok (record {
    vm_outcome = none;
    changes = changes;
    gas_used = gas_used;
    l2_price = price;
    logs = logs;
    deployment = deployment;
  })
  conclude gas_used price (Error.err (user e)) (changes, logs) = ok (record {
    vm_outcome = some e;
    changes = changes;
    gas_used = gas_used;
    l2_price = price;
    logs = logs;
    deployment = none;
  })
  conclude gas_used price (Error.err e) (changes, logs) = err e

  -- The refund of the gas that was not used, and the end of the session.
  unfoldable pub settle :
      CanonicalExecutionInput → ℕ → session.ChangeSet → Result Deployment → Run vm TxOutcome
  unfolding total_gas_used l2_fee refund_gas_cost collect conclude
  settle input l2_cost deployed vm_outcome s =
      let gas_used = total_gas_used (machine.gas_counters s) machine.scaling_factor in
      let used_l2_cost = l2_fee input.l2_multiplier (record {
        gas_limit = gas_used;
        effective_gas_price = input.l2_input.effective_gas_price;
      }) in
      (do
        _ ← paid vm (eth_token_invariant_violation refund_always_succeeds) (
            refund_gas_cost vm input.eth_treasury (to_move_address input.tx.signer)
              (l2_cost - used_l2_cost))
        finished ← inspect from_vm_error machine.finish
        collected ← lift (collect deployed finished)
        lift (conclude gas_used input.l2_input.effective_gas_price vm_outcome collected))
        s

  abbrev pub verification_input : CanonicalExecutionInput → ℕ → CanonicalVerificationInput
  verification_input input l2_cost = record {
    tx = input.tx;
    genesis_chain_id = input.genesis_chain_id;
    l1_cost = input.l1_cost;
    l2_cost = l2_cost;
    eth_treasury = input.eth_treasury;
  }

  -- What follows the creation of the session.
  unfoldable pub execute_in_session : CanonicalExecutionInput → TransactionData → Run vm TxOutcome
  unfolding l2_fee verify_transaction execute_data replicate_after settle
  execute_in_session input tx_data =
      let l2_cost = l2_fee input.l2_multiplier input.l2_input in
      (do
        _ ← verify_transaction vm (verification_input input l2_cost)
        executed ← (λ s. caught (execute_data input tx_data s))
        vm_outcome ← (λ s. caught (replicate_after executed s))
        settle input l2_cost (deploy_changes executed) vm_outcome)

  module _ (codec : Codec) where
    abbrev pub session_id : CanonicalExecutionInput → TransactionData → SessionId
    unfolding new_from_canonical maybe_entry_fn script_hash
    session_id input tx_data =
        new_from_canonical input.tx (maybe_entry_fn tx_data) input.tx_hash input.genesis_chain_id
          input.block_header (script_hash codec tx_data)

    unfoldable pub execute_canonical_transaction : CanonicalExecutionInput → Outcome TxOutcome
    unfolding parse_from execute_in_session session_id
    execute_canonical_transaction input = and (of_result (parse_from codec input.tx)) (λ tx_data.
        (execute_in_session input tx_data
          (machine.new_session (session_id input tx_data) input.l2_input.gas_limit)).0)
