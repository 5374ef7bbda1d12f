-- ===== src/Execution/Deploy.antt =====
-- execution/src/execute.rs: contracts of the EVM and the publishing of modules.
use op_move.Base.{
  ℕ, List, [], ◌∷◌, Address, AccountAddress, Bytes, unwrap_or, length, ◌==◌, if◌then◌else◌,
}
use op_move.Primitives.{be_value}
use op_move.MoveTypes.{MoveValue, MoveTypeLayout}
use op_move.Error.{user, evm_contract_creation_failure, from_vm_error}
use op_move.Transaction.Types.{ModuleId}
use op_move.Execution.Vm.{
  Vm, Outcome, ok, err, panicked, and, expect, Run, ◌>>=◌, pure, lift, attempt, inspect, or_error,
}
use op_move.Execution.Session.{Session, EvmFunction, evm_create, evm_call, new, modify}
use op_move.Execution.Calls.{from_partial_vm_error, u256_layout, code_layout}
use op_move.EvmExt.Results.{EvmNativeOutcome, extract_evm_result, vector_u8}

-- `Address::from_slice`, which panics unless there are 20 bytes.
abbrev pub from_slice : Bytes → Outcome Address
from_slice bytes = if length bytes == 20 then ok (be_value bytes) else panicked

module _ {vm : Vm} (session : Session vm) where
  abbrev pub or_default : MoveValue → Bytes
  or_default value = unwrap_or (session.simple_serialize value) []

  -- Arguments whose layouts fit, so that a failure is a panic.
  unfoldable pub serialize_all : List (MoveValue × MoveTypeLayout) → Outcome (List Bytes)
  serialize_all [] = ok []
  serialize_all ((value, layout) ∷ values) =
      let rest = serialize_all values in
      and (expect (session.serialize value layout)) (λ bytes. and rest (λ all. ok (bytes ∷ all)))

  -- The EVM native, with what it returns.
  unfoldable pub evm_native : EvmFunction → List Bytes → Run vm EvmNativeOutcome
  unfolding extract_evm_result
  evm_native function args = do
    outcome ← attempt from_vm_error (session.call_evm function args)
    lift (extract_evm_result vm.deserialize outcome)

  created : EvmNativeOutcome → Outcome Address
  created outcome =
      if outcome.is_success
      then from_slice outcome.output
      else err (user evm_contract_creation_failure)

  unfoldable pub deploy_evm_contract : Bytes → ℕ → AccountAddress → Run vm Address
  unfolding evm_native created
  deploy_evm_contract bytecode value signer = do
    evm_outcome ← evm_native evm_create (
        or_default (MoveValue.signer signer)
        ∷ or_default (MoveValue.u256 value)
        ∷ or_default (MoveValue.vector (vector_u8 bytecode))
        ∷ [])
    lift (created evm_outcome)

  unfoldable pub execute_evm_contract :
      AccountAddress → AccountAddress → ℕ → Bytes → Run vm EvmNativeOutcome
  unfolding serialize_all evm_native
  execute_evm_contract signer contract value input = do
    args ← lift (
        serialize_all (
          (MoveValue.signer signer, MoveTypeLayout.signer)
          ∷ (MoveValue.address contract, MoveTypeLayout.address)
          ∷ (MoveValue.u256 value, u256_layout)
          ∷ (MoveValue.vector (vector_u8 input), code_layout)
          ∷ []))
    evm_native evm_call args

  -- The loop over the staged modules, which adds or replaces each.
  pub write_modules : List (ModuleId × Bytes) → session.ChangeSet → Run vm session.ChangeSet
  write_modules [] writes = pure writes
  write_modules ((module_id, bytes) ∷ bundle) writes = do
    module_exists ←
        inspect from_vm_error (session.check_module_exists module_id.address module_id.name)
    writes ← lift (
        expect (
          session.add_module_op writes module_id
            (if module_exists then modify bytes else new bytes)))
    write_modules bundle writes

  unfoldable pub deploy_module : Bytes → AccountAddress → Run vm (ModuleId × session.ChangeSet)
  unfolding write_modules
  deploy_module code address = do
    self_id ← lift (or_error from_partial_vm_error (session.deserialize_module code))
    bundle ← inspect from_vm_error (session.stage_module address code)
    writes ← write_modules bundle session.no_changes
    pure (self_id, writes)
