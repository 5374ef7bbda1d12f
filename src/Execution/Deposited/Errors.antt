-- ===== src/Execution/Deposited/Errors.antt =====
-- The execution of any transaction never ends with a user error, as app/src/command.rs relies on.
use op_move.Base.{List, [], ◌∷◌, Option}
use op_move.MoveTypes.{MoveValue, MoveTypeLayout}
use op_move.Error
use op_move.Error.{
  Error, Result, UserError, user, invalid_transaction, invariant_violation, from_vm_error,
}
use op_move.Transaction.Types.{TxKind, TxDeposit, Log}
use op_move.Transaction.Parse.{Codec}
use op_move.Execution.Vm.{Vm, caught, expect, inspect}
use op_move.Execution.NotUser.{
  NotUser, and-NotUser, and_then-NotUser, caught-NotUser, expect-NotUser,
}
use op_move.Execution.Session.{Session}
use op_move.Execution.Deploy.{serialize_all}
use op_move.Execution.Canonical.{Machine, collect_evm}
use op_move.Execution.Canonical.Errors.{
  Finishes, collect_evm-NotUser, finish-NotUser, execute_canonical_transaction-NotUser,
}
use op_move.Execution.Deposited.{
  DepositExecutionInput, TransactionExecutionInput, deposit, canonical, deposit_to, deposit_values,
  deposit_args, deposit_call, user_outcome, finish_deposit, execute_deposited_transaction,
  execute_transaction,
}

user_outcome-NotUser : (r : Result (List Log)) → NotUser (user_outcome r)
unfolding user_outcome
user_outcome-NotUser (Error.ok logs) = tt
user_outcome-NotUser (Error.err (user e)) = tt
user_outcome-NotUser (Error.err (invalid_transaction e)) = tt
user_outcome-NotUser (Error.err (invariant_violation e)) = tt

deposit_to-NotUser : (to : TxKind) → NotUser (deposit_to to)
deposit_to-NotUser (TxKind.call to) = tt
deposit_to-NotUser TxKind.create = tt

module _ {vm : Vm} {session : Session vm} (machine : Machine session) where
  serialize_all-NotUser :
      (values : List (MoveValue × MoveTypeLayout)) → NotUser (serialize_all session values)
  unfolding serialize_all
  serialize_all-NotUser [] = tt
  serialize_all-NotUser ((value, layout) ∷ values) =
      and-NotUser (expect (session.serialize value layout)) _ (expect-NotUser _) (λ bytes.
        and-NotUser (serialize_all session values) _ (serialize_all-NotUser values) (λ all. tt))

  deposit_args-NotUser : (tx : TxDeposit) → NotUser (deposit_args machine tx)
  unfolding deposit_args
  deposit_args-NotUser tx =
      and-NotUser (deposit_to tx.to) _ (deposit_to-NotUser tx.to)
        (λ to. serialize_all-NotUser (deposit_values tx to))

  finish_deposit-NotUser :
      Finishes machine
      → (logs : List Log) (e : Option UserError) (s : vm.State)
      → NotUser (finish_deposit machine logs e s).0
  unfolding finish_deposit
  finish_deposit-NotUser finishes logs e s =
      and_then-NotUser (inspect from_vm_error machine.finish s) _
        (finish-NotUser machine finishes s)
        (λ f s₁.
          and_then-NotUser (collect_evm machine f, s₁) _ (collect_evm-NotUser machine f)
            (λ c s₂. tt))

  deposited-NotUser :
      Finishes machine
      → (input : DepositExecutionInput) → NotUser (execute_deposited_transaction machine input)
  unfolding execute_deposited_transaction
  deposited-NotUser finishes input =
      and_then-NotUser (deposit_args machine input.tx, _) _ (deposit_args-NotUser input.tx)
        (λ args s₁.
          and_then-NotUser (caught (deposit_call machine input.tx args s₁)) _ (caught-NotUser _)
            (λ result s₂.
              and_then-NotUser (user_outcome result, s₂) _ (user_outcome-NotUser result)
                (λ r s₃. finish_deposit-NotUser finishes r.0 r.1 s₃)))

  -- If sessions finish, then the execution of a transaction, deposit or not, never ends with a user
  -- error, whatever its data is and whatever the functions that it calls do.
  pub execute_transaction-NotUser :
      Finishes machine
      → (codec : Codec) (input : TransactionExecutionInput)
      → NotUser (execute_transaction machine codec input)
  unfolding execute_transaction
  execute_transaction-NotUser finishes codec (deposit input) = deposited-NotUser finishes input
  execute_transaction-NotUser finishes codec (canonical input) =
      execute_canonical_transaction-NotUser machine finishes codec input
