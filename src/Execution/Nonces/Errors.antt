-- ===== src/Execution/Nonces/Errors.antt =====
-- The check of a nonce ends with no user error.
use op_move.Base.{
  ℕ, false, List, [], ◌∷◌, Option, none, some, AccountAddress, Bytes, ◌==◌, Bool-cases, inl, inr,
}
use op_move.Base.U256.{u64_max}
use op_move.MoveTypes.{StatusCode, out_of_gas, status, MoveValue, MoveTypeLayout}
use op_move.Error.{
  NonceChecking, get_nonce_always_succeeds, any_account_can_be_created,
  increment_nonce_always_succeeds, nonce_invariant_violation,
}
use op_move.Execution.Vm.{Vm, VmResult, done, failed, FrameworkFunction, err, or_error, attempt}
use op_move.Execution.NotUser.{NotUser, and_then-NotUser}
use op_move.Execution.Nonces.{
  by_status, or_out_of_gas, nonce_of_value, nonce_of_read, first_nonce, get_account_nonce,
  compare_nonces, check_nonce,
}

by_status-NotUser :
    (A : Type 0) (i : NonceChecking) (c : StatusCode) → NotUser {A = A} (err (by_status i c))
by_status-NotUser A i out_of_gas = tt
by_status-NotUser A i (status n) = tt

or_out_of_gas-NotUser :
    (A : Type 0) (i : NonceChecking) (r : VmResult A) → NotUser (or_error (or_out_of_gas i) r)
or_out_of_gas-NotUser A i (done a) = tt
or_out_of_gas-NotUser A i (failed e) = by_status-NotUser A i e.major_status

invariant-NotUser :
    {A : Type 0} (i : NonceChecking) (r : VmResult A)
    → NotUser (or_error (λ e. nonce_invariant_violation i) r)
invariant-NotUser i (done a) = tt
invariant-NotUser i (failed e) = tt

module _ (vm : Vm) where
  nonce_of_value-NotUser : (v : MoveValue) → NotUser (nonce_of_value v)
  nonce_of_value-NotUser (MoveValue.u64 n) = tt
  nonce_of_value-NotUser _ = tt

  nonce_of_read-NotUser : (o : Option MoveValue) → NotUser (nonce_of_read o)
  nonce_of_read-NotUser none = tt
  nonce_of_read-NotUser (some v) = nonce_of_value-NotUser v

  first_nonce-NotUser :
      (values : List (Bytes × MoveTypeLayout)) → NotUser (first_nonce vm false values)
  unfolding first_nonce
  first_nonce-NotUser [] = tt
  first_nonce-NotUser ((bytes, layout) ∷ rest) = nonce_of_read-NotUser (vm.deserialize bytes layout)

  compare_nonces-NotUser : (a b : ℕ) → NotUser (compare_nonces vm false a b)
  compare_nonces-NotUser a b = elim (Bool-cases (a == b)) [
    | inl e ↦ elim (Bool-cases (b == u64_max)) [ inl f ↦ rw (e, f) tt | inr f ↦ rw (e, f) tt ]
    | inr e ↦ rw e tt
  ]

  pub check_nonce-NotUser :
      (tx_nonce : ℕ) (signer : AccountAddress) (s : vm.State)
      → NotUser (check_nonce vm false tx_nonce signer s).0
  unfolding check_nonce get_account_nonce
  check_nonce-NotUser tx_nonce signer s =
      and_then-NotUser
        (attempt (or_out_of_gas any_account_can_be_created)
          (vm.call false FrameworkFunction.create_account_if_does_not_exist
            (MoveValue.address signer ∷ []))
          s)
        _ (or_out_of_gas-NotUser _ any_account_can_be_created _)
        (λ _ s₁. and_then-NotUser (get_account_nonce vm false signer s₁) _ (read s₁) (λ nonce s₂.
          and_then-NotUser (compare_nonces vm false tx_nonce nonce, s₂) _
            (compare_nonces-NotUser tx_nonce nonce)
            (λ _ s₃.
              and_then-NotUser
                (attempt (or_out_of_gas increment_nonce_always_succeeds)
                  (vm.call false FrameworkFunction.increment_sequence_number
                    (MoveValue.address signer ∷ []))
                  s₃)
                _ (or_out_of_gas-NotUser _ increment_nonce_always_succeeds _) (λ _ _. tt))))
    where
      read : (t : vm.State) → NotUser (get_account_nonce vm false signer t).0
      read t =
          and_then-NotUser
            (attempt (λ e. nonce_invariant_violation get_nonce_always_succeeds)
              (vm.call false FrameworkFunction.get_sequence_number (MoveValue.address signer ∷ []))
              t)
            _ (invariant-NotUser get_nonce_always_succeeds _)
            (λ values _. first_nonce-NotUser values)
