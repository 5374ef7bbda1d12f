-- ===== src/Execution/Deposited.antt =====
-- execution/src/deposited.rs and `execute_transaction` of execution/src/lib.rs.
pub mod Errors
use op_move.Base.{
  ℕ, Bool, true, false, not, List, [], ◌∷◌, ◌++◌, Option, none, some, AccountAddress, B256, Bytes,
  unwrap_or, ◌==◌, if◌then◌else◌,
}
use op_move.Primitives.{to_move_address}
use op_move.MoveTypes.{MoveValue, MoveTypeLayout}
use op_move.Error
use op_move.Error.{
  Error, Result, UserError, user, deposit_failure, invalid_transaction, invariant_violation,
  from_vm_error,
}
use op_move.Transaction.Types.{TxKind, TxDeposit, Log}
use op_move.Transaction.Parse.{Codec}
use op_move.Gas.{total_gas_used}
use op_move.App.Types.{HeaderForExecution, TransactionExecutionOutcome}
use op_move.Execution.Vm.{
  Vm, Outcome, ok, err, panicked, and, caught, Run, ◌>>=◌, pure, throw, lift, inspect, expect,
}
use op_move.Execution.Session.{Session, evm_deposit}
use op_move.Execution.SessionId.{SessionId, new_from_deposited}
use op_move.Execution.Calls.{u256_layout, code_layout}
use op_move.Execution.Deploy.{serialize_all, evm_native}
use op_move.Execution.Token.{mint_eth}
use op_move.Execution.Canonical.{
  Machine, Changes, CanonicalExecutionInput, TxOutcome, evm_native_address, replicate, collect_evm,
  execute_canonical_transaction,
}
use op_move.EvmExt.Results.{EvmNativeOutcome, vector_u8}

-- `DepositExecutionInput`, by what differs between transactions.
pub record DepositExecutionInput : Type 0 where
  pub tx : TxDeposit
  pub tx_hash : B256
  pub genesis_chain_id : ℕ
  pub block_header : HeaderForExecution

-- `TransactionExecutionInput`.
pub data TransactionExecutionInput : Type 0 where
  deposit : DepositExecutionInput → TransactionExecutionInput
  canonical : CanonicalExecutionInput → TransactionExecutionInput

-- A deposit that creates a contract is not implemented, which is a panic.
abbrev pub deposit_to : TxKind → Outcome AccountAddress
deposit_to (TxKind.call to) = ok (to_move_address to)
deposit_to TxKind.create = panicked

-- The arguments of the EVM native with their layouts.
abbrev pub deposit_values : TxDeposit → AccountAddress → List (MoveValue × MoveTypeLayout)
deposit_values tx to =
    (MoveValue.address (to_move_address tx.from), MoveTypeLayout.address)
    ∷ (MoveValue.address to, MoveTypeLayout.address)
    ∷ (MoveValue.u256 tx.value, u256_layout)
    ∷ (MoveValue.vector (vector_u8 tx.input), code_layout)
    ∷ []

-- A user error makes an outcome without the logs of the EVM; any other error ends the execution.
unfoldable pub user_outcome : Result (List Log) → Outcome (List Log × Option UserError)
user_outcome (Error.ok logs) = ok (logs, none)
user_outcome (Error.err (user e)) = ok ([], some e)
user_outcome (Error.err e) = err e

module _ {vm : Vm} {session : Session vm} (machine : Machine session) where
  -- What follows a successful execution by the EVM: tokens for its native account, then the transfers.
  unfoldable pub mint_and_replicate : TxDeposit → EvmNativeOutcome → Run vm (List Log)
  unfolding mint_eth replicate
  mint_and_replicate tx evm_outcome =
      if not evm_outcome.is_success then throw (user (deposit_failure evm_outcome.output)) else (do
        _ ←
            if unwrap_or tx.mint 0 == 0
            then pure tt
            else mint_eth vm true evm_native_address (unwrap_or tx.mint 0)
        _ ← replicate machine
        pure evm_outcome.logs)

  unfoldable pub deposit_args : TxDeposit → Outcome (List Bytes)
  unfolding serialize_all
  deposit_args tx = and (deposit_to tx.to) (λ to. serialize_all session (deposit_values tx to))

  -- The call of the EVM native with what follows it.
  unfoldable pub deposit_call : TxDeposit → List Bytes → Run vm (List Log)
  unfolding evm_native mint_and_replicate
  deposit_call tx args = do
    evm_outcome ← evm_native session evm_deposit args
    mint_and_replicate tx evm_outcome

  unfoldable pub finish_deposit : List Log → Option UserError → Run vm (TxOutcome machine)
  unfolding collect_evm total_gas_used
  finish_deposit evm_logs vm_outcome s =
      (do
        finished ← inspect from_vm_error machine.finish
        (changes, logs) ← lift (collect_evm machine finished)
        pure (record {
          vm_outcome = vm_outcome;
          changes = changes;
          gas_used = total_gas_used (machine.gas_counters s) machine.scaling_factor;
          l2_price = 0;
          logs = logs ++ evm_logs;
          deployment = none;
        }))
        s

  unfoldable pub execute_deposited_transaction : DepositExecutionInput → Outcome (TxOutcome machine)
  unfolding new_from_deposited deposit_args deposit_call user_outcome finish_deposit
  execute_deposited_transaction input =
      ((do
        args ← lift (deposit_args input.tx)
        result ← (λ s. caught (deposit_call input.tx args s))
        (evm_logs, vm_outcome) ← lift (user_outcome result)
        finish_deposit evm_logs vm_outcome)
        (machine.new_session
          (new_from_deposited input.tx input.tx_hash input.genesis_chain_id input.block_header)
          input.tx.gas_limit)).0

  unfoldable pub execute_transaction :
      Codec → TransactionExecutionInput → Outcome (TxOutcome machine)
  unfolding execute_deposited_transaction execute_canonical_transaction
  execute_transaction codec (deposit input) = execute_deposited_transaction input
  execute_transaction codec (canonical input) = execute_canonical_transaction machine codec input
