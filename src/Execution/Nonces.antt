-- ===== src/Execution/Nonces.antt =====
-- execution/src/nonces.rs: the check of a transaction's nonce against the account's, which creates
-- the account and increments its nonce.
pub mod Sequence
pub mod Errors
use op_move.Base.{
  ℕ, Bool, List, [], ◌∷◌, Option, none, some, AccountAddress, Bytes, ◌==◌, if◌then◌else◌,
}
use op_move.Base.U256.{u64_max}
use op_move.MoveTypes.{VmError, StatusCode, out_of_gas, status, MoveValue, MoveTypeLayout}
use op_move.Error.{
  Error, NonceChecking, any_account_can_be_created, increment_nonce_always_succeeds,
  get_nonce_always_succeeds, get_nonce_returns_a_value, get_none_return_deserializes,
  get_nonce_returns_u64, invalid_transaction, insufficient_intrinsic_gas, incorrect_nonce,
  exhausted_account, nonce_invariant_violation,
}
use op_move.Execution.Vm.{
  Outcome, ok, err, Vm, FrameworkFunction, Run, ◌>>=◌, throw, pure, lift, attempt,
}

-- Out of gas is the transaction's fault, anything else the program's.
abbrev pub by_status : NonceChecking → StatusCode → Error
by_status invariant out_of_gas = invalid_transaction insufficient_intrinsic_gas
by_status invariant (status n) = nonce_invariant_violation invariant

abbrev pub or_out_of_gas : NonceChecking → VmError → Error
or_out_of_gas invariant e = by_status invariant e.major_status

abbrev nonce_of_value : MoveValue → Outcome ℕ
nonce_of_value (MoveValue.u64 nonce) = ok nonce
nonce_of_value _ = err (nonce_invariant_violation get_nonce_returns_u64)

abbrev nonce_of_read : Option MoveValue → Outcome ℕ
nonce_of_read none = err (nonce_invariant_violation get_none_return_deserializes)
nonce_of_read (some value) = nonce_of_value value

module _ (vm : Vm) (metered : Bool) where
  -- The first of the return values, read by its layout.
  unfoldable pub first_nonce : List (Bytes × MoveTypeLayout) → Outcome ℕ
  first_nonce [] = err (nonce_invariant_violation get_nonce_returns_a_value)
  first_nonce ((raw_output, layout) ∷ rest) = nonce_of_read (vm.deserialize raw_output layout)

  unfoldable pub get_account_nonce : AccountAddress → Run vm ℕ
  unfolding first_nonce
  get_account_nonce signer = do
    return_values ←
        attempt (λ e. nonce_invariant_violation get_nonce_always_succeeds)
          (vm.call metered FrameworkFunction.get_sequence_number (MoveValue.address signer ∷ []))
    lift (first_nonce return_values)

  -- The comparison of the nonces.
  abbrev pub compare_nonces : ℕ → ℕ → Outcome (Unit {0})
  compare_nonces tx_nonce account_nonce =
      if tx_nonce == account_nonce
      then (if account_nonce == u64_max then err (invalid_transaction exhausted_account) else ok tt)
      else err (invalid_transaction (incorrect_nonce account_nonce tx_nonce))

  unfoldable pub check_nonce : ℕ → AccountAddress → Run vm (Unit {0})
  unfolding get_account_nonce
  check_nonce tx_nonce signer = do
    _ ← attempt (or_out_of_gas any_account_can_be_created) (
        vm.call metered FrameworkFunction.create_account_if_does_not_exist
          (MoveValue.address signer ∷ []))
    account_nonce ← get_account_nonce signer
    _ ← lift (compare_nonces tx_nonce account_nonce)
    _ ← attempt (or_out_of_gas increment_nonce_always_succeeds) (
        vm.call metered FrameworkFunction.increment_sequence_number (MoveValue.address signer ∷ []))
    pure tt
