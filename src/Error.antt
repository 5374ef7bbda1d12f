-- ===== src/Error.antt =====
-- shared/src/error.rs: the structured errors, their conversions, and the result type.
use Prim.Native.String.{String}
use op_move.Base.{ℕ, Bytes, Option, none, some}
use op_move.MoveTypes.{VmError, TypeTag}

-- Why a payload is not the serialisation of what was expected.
pub data BcsError : Type 0 where
  custom : String → BcsError
  malformed : ℕ → BcsError

pub data NonceChecking : Type 0 where
  any_account_can_be_created get_nonce_always_succeeds get_nonce_returns_a_value : NonceChecking
  get_none_return_deserializes get_nonce_returns_u64 : NonceChecking
  increment_nonce_always_succeeds : NonceChecking

pub data EthToken : Type 0 where
  mint_always_succeeds get_balance_always_succeeds get_balance_returns_a_value : EthToken
  get_balance_return_deserializes get_balance_returns_u256 refund_always_succeeds : EthToken

pub data EntryFunctionValue : Type 0 where
  only_allowed_structs string_struct_has_field string_struct_field_is_vector : EntryFunctionValue
  string_elements_are_u8 option_has_inner_type option_struct_has_field : EntryFunctionValue
  option_struct_field_is_vector object_struct_has_type_parameter : EntryFunctionValue
  object_struct_has_field object_struct_field_is_address : EntryFunctionValue
  object_core_type_exists object_inner_type_exists : EntryFunctionValue

pub data ScriptTransaction : Type 0 where
  args_must_serialize : ScriptTransaction

pub data InvariantViolation : Type 0 where
  nonce_checking : NonceChecking → InvariantViolation
  eth_token : EthToken → InvariantViolation
  entry_function_value : EntryFunctionValue → InvariantViolation
  script_transaction : ScriptTransaction → InvariantViolation

-- The error caused by invalid user input.
pub data UserError : Type 0 where
  vm partial_vm : VmError → UserError
  invalid_signature : ℕ → UserError
  deposit_failure : Bytes → UserError
  l2_contract_call_failure evm_contract_creation_failure : UserError

-- The error caused by an invalid transaction parameter.
pub data InvalidTransactionCause : Type 0 where
  invalid_destination invalid_signer : InvalidTransactionCause
  invalid_payload : BcsError → InvalidTransactionCause
  mismatched_argument_count failed_argument_deserialization : InvalidTransactionCause
  unsupported_nested_reference unsupported_type : InvalidTransactionCause
  unknown_type : ℕ → InvalidTransactionCause
  incorrect_nonce : ℕ → ℕ → InvalidTransactionCause
  exhausted_account incorrect_chain_id : InvalidTransactionCause
  disallowed_entry_function_type : TypeTag → InvalidTransactionCause
  insufficient_intrinsic_gas invalid_string invalid_option : InvalidTransactionCause
  invalid_object failed_to_pay_l1_fee failed_to_pay_l2_fee : InvalidTransactionCause

pub data Error : Type 0 where
  user : UserError → Error
  invalid_transaction : InvalidTransactionCause → Error
  invariant_violation : InvariantViolation → Error

abbrev pub nonce_invariant_violation : NonceChecking → Error
nonce_invariant_violation i = invariant_violation (nonce_checking i)

abbrev pub eth_token_invariant_violation : EthToken → Error
eth_token_invariant_violation i = invariant_violation (eth_token i)

abbrev pub entry_fn_invariant_violation : EntryFunctionValue → Error
entry_fn_invariant_violation i = invariant_violation (entry_function_value i)

abbrev pub script_tx_invariant_violation : ScriptTransaction → Error
script_tx_invariant_violation i = invariant_violation (script_transaction i)

-- `From<bcs::Error> for Error`.
abbrev pub from_bcs_error : BcsError → Error
from_bcs_error e = invalid_transaction (invalid_payload e)

-- `From<T> for Error where UserError: From<T>`, at the errors of the VM.
abbrev pub from_vm_error : VmError → Error
from_vm_error e = user (vm e)

pub data Result {ℓ} (A : Type ℓ) : Type ℓ where
  ok : A → Result A
  err : Error → Result A

-- The `?` operator: a failure ends the block with the same failure.
infixl 5 ◌>>=◌
abbrev pub ◌>>=◌ {ℓ κ} : {T : Type ℓ} {U : Type κ} → Result T → (T → Result U) → Result U
err failure >>= next = err failure
ok value >>= next = next value

-- `Option::ok_or`.
abbrev pub ok_or {ℓ} : {A : Type ℓ} → Option A → Error → Result A
ok_or none e = err e
ok_or (some a) e = ok a

-- `Result::map_err`.
abbrev pub map_err {ℓ} : {A : Type ℓ} → (Error → Error) → Result A → Result A
map_err f (ok a) = ok a
map_err f (err e) = err (f e)
