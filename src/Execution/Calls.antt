-- ===== src/Execution/Calls.antt =====
-- execution/src/execute.rs: what the data of a transaction makes the VM do.
pub mod Arguments
pub mod Entry
pub mod Scripts
use Prim.Native.String.{String}
use op_move.Base.{
  ℕ, ◌+◌, ◌≡◌, refl, Bool, true, false, not, List, [], ◌∷◌, Option, none, some, Address,
  AccountAddress, Bytes, length, ◌==◌, if◌then◌else◌,
}
use op_move.Primitives.{to_move_address, be_value}
use op_move.MoveTypes.{VmError, TypeTag, MoveValue, MoveTypeLayout}
use op_move.Error.{
  Error, user, partial_vm, evm_contract_creation_failure, invalid_transaction,
  mismatched_argument_count, failed_argument_deserialization, unsupported_nested_reference,
  script_tx_invariant_violation, args_must_serialize, from_vm_error,
}
use op_move.Transaction.Types.{ModuleId, EntryFunction, Script}
use op_move.Execution.Vm.{
  Vm, VmResult, Outcome, ok, err, panicked, and, expect, Run, ◌>>=◌, pure, throw, lift, attempt,
  inspect, or_error,
}
use op_move.Execution.Session.{
  RuntimeType, reference, mutable_reference, other, Session, EvmFunction, evm_create, evm_call,
  ModuleOp,
}
use op_move.Tags.{validate_entry_type_tag, validate_entry_value}
use op_move.Tags.Layouts.{has_value_invariants}
use op_move.EvmExt.Results.{EvmNativeOutcome, extract_evm_result, vector_u8}

abbrev strip_inner : RuntimeType → Outcome RuntimeType
strip_inner (other t) = ok (other t)
strip_inner _ = err (invalid_transaction unsupported_nested_reference)

abbrev pub strip_reference : RuntimeType → Outcome RuntimeType
strip_reference (reference inner) = strip_inner inner
strip_reference (mutable_reference inner) = strip_inner inner
strip_reference (other t) = ok (other t)

-- `ok_or` on an outcome.
abbrev pub or_fail : {A : Type 0} → Option A → Error → Outcome A
or_fail (some a) e = ok a
or_fail none e = err e

abbrev pub from_partial_vm_error : VmError → Error
from_partial_vm_error e = user (partial_vm e)

abbrev pub u256_layout : MoveTypeLayout
u256_layout = MoveTypeLayout.u256

abbrev pub code_layout : MoveTypeLayout
code_layout = MoveTypeLayout.vector MoveTypeLayout.u8

abbrev pub is_signer : TypeTag → Bool
is_signer TypeTag.signer = true
is_signer _ = false

module _ {vm : Vm} (session : Session vm) where
  -- An argument that has to be looked at is read and validated; the session is only read.
  unfoldable pub validate_bytes :
      AccountAddress → TypeTag → MoveTypeLayout → Bytes → vm.State → Outcome (Unit {0})
  unfolding validate_entry_value
  validate_bytes signer tag layout bytes s =
      and
        (or_fail (vm.deserialize bytes layout)
          (invalid_transaction failed_argument_deserialization))
        (validate_entry_value (session.tag_env s) signer tag)

  -- One round of the loop over the parameters.
  unfoldable pub validate_argument :
      AccountAddress → RuntimeType → Bytes → vm.State → Outcome (Unit {0})
  unfolding validate_entry_type_tag has_value_invariants validate_bytes
  validate_argument signer ty bytes s = and (strip_reference ty) (λ t.
      and (or_error from_vm_error (session.get_type_tag t s)) (λ tag.
        and (validate_entry_type_tag tag) (λ _.
          and (or_error from_vm_error (session.get_type_layout t s)) (λ layout.
            if has_value_invariants layout
            then validate_bytes signer tag layout bytes s
            else ok tt))))

  -- The loop over `zip`, which ends with the shorter list.
  unfoldable pub validate_arguments :
      AccountAddress → List RuntimeType → List Bytes → vm.State → Outcome (Unit {0})
  unfolding validate_argument
  validate_arguments signer [] args s = ok tt
  validate_arguments signer (ty ∷ tys) [] s = ok tt
  validate_arguments signer (ty ∷ tys) (bytes ∷ args) s =
      let rest = validate_arguments signer tys args s in
      and (validate_argument signer ty bytes s) (λ _. rest)

  -- After the number of arguments has been compared.
  unfoldable pub checked_entry_function :
      EntryFunction → AccountAddress → List RuntimeType → Run vm (Unit {0})
  unfolding validate_arguments
  checked_entry_function entry_fn signer tys = do
    _ ← (λ s. (validate_arguments signer tys entry_fn.args s, s))
    function ←
        inspect from_vm_error
          (session.load_function entry_fn.module_id entry_fn.function entry_fn.ty_args)
    attempt from_vm_error (session.execute_entry_function function entry_fn.args)

  unfoldable pub execute_entry_function : EntryFunction → AccountAddress → Run vm (Unit {0})
  unfolding checked_entry_function
  execute_entry_function entry_fn signer = do
    function ←
        inspect from_vm_error
          (session.load_function entry_fn.module_id entry_fn.function entry_fn.ty_args)
    if not (length (session.param_tys function) == length entry_fn.args)
        then throw (invalid_transaction mismatched_argument_count)
        else checked_entry_function entry_fn signer (session.param_tys function)

  -- The loop over the parameters of a script: signers are put in, the other arguments are taken in
  -- their order, and none may be left.
  abbrev pub argument : Bytes → Outcome Bytes
  argument arg =
      or_fail (session.simple_serialize (session.value_of_argument arg))
        (script_tx_invariant_violation args_must_serialize)

  unfoldable pub script_args :
      Bytes → List RuntimeType → List Bytes → vm.State → Outcome (List Bytes)
  script_args serialized_signer [] [] s = ok []
  script_args serialized_signer [] (arg ∷ given) s =
      err (invalid_transaction mismatched_argument_count)
  script_args serialized_signer (ty ∷ tys) [] s =
      let rest = script_args serialized_signer tys [] s in
      and (strip_reference ty) (λ t. and (or_error from_vm_error (session.get_type_tag t s)) (λ tag.
        if is_signer tag
        then and rest (λ result. ok (serialized_signer ∷ result))
        else err (invalid_transaction mismatched_argument_count)))
  script_args serialized_signer (ty ∷ tys) (arg ∷ given) s =
      let rest = script_args serialized_signer tys given s in
      let rest_with = script_args serialized_signer tys (arg ∷ given) s in
      and (strip_reference ty) (λ t. and (or_error from_vm_error (session.get_type_tag t s)) (λ tag.
        if is_signer tag
        then and rest_with (λ result. ok (serialized_signer ∷ result))
        else and (argument arg) (λ value. and rest (λ result. ok (value ∷ result)))))

  unfoldable pub execute_script : Script → AccountAddress → Run vm (Unit {0})
  unfolding script_args
  execute_script script signer = do
    function ← inspect from_vm_error (session.load_script script.code script.ty_args)
    serialized_signer ← lift (
        or_fail (session.simple_serialize (MoveValue.signer signer))
          (script_tx_invariant_violation args_must_serialize))
    args ← (λ s. (script_args serialized_signer (session.param_tys function) script.args s, s))
    attempt from_vm_error (session.execute_script script.code script.ty_args args)
