-- ===== src/Execution/Verify/Errors.antt =====
-- The verification of a transaction ends with no user error.
use op_move.Base.{false, Bool-cases, inl, inr, length, ℕ}
use op_move.Primitives.{to_move_address}
use op_move.Error.{
  InvalidTransactionCause, invalid_transaction, failed_to_pay_l1_fee, failed_to_pay_l2_fee,
}
use op_move.Execution.Vm.{Vm, Outcome}
use op_move.Execution.NotUser.{NotUser, and_then-NotUser, replaced-NotUser}
use op_move.Execution.Nonces.Errors.{check_nonce-NotUser}
use op_move.Execution.Verify.{
  CanonicalVerificationInput, wrong_chain, charge_gas, enough_gas, verify_transaction, paid,
}
use op_move.Execution.Token.{charge_gas_cost}

module _ (vm : Vm) where
  enough_gas-NotUser : (n : ℕ) (s : vm.State) → NotUser (enough_gas vm n s).0
  unfolding enough_gas
  enough_gas-NotUser n s = elim (Bool-cases (charge_gas vm n s).0) [
    | inl e ↦ rw e tt
    | inr e ↦ rw e tt
  ]

  pub verify_transaction-NotUser :
      (input : CanonicalVerificationInput) (s : vm.State)
      → NotUser (verify_transaction vm input s).0
  unfolding verify_transaction
  verify_transaction-NotUser input s =
      elim (Bool-cases (wrong_chain input.tx.chain_id input.genesis_chain_id)) [
        | inl e ↦ rw e tt
        | inr e ↦ rw e (
            and_then-NotUser (enough_gas vm (length input.tx.input) s) _
              (enough_gas-NotUser (length input.tx.input) s)
              (λ _ s₁.
                and_then-NotUser (charge failed_to_pay_l1_fee input.l1_cost s₁) _
                  (replaced-NotUser (invalid_transaction failed_to_pay_l1_fee) _ tt)
                  (λ _ s₂.
                    and_then-NotUser (charge failed_to_pay_l2_fee input.l2_cost s₂) _
                      (replaced-NotUser (invalid_transaction failed_to_pay_l2_fee) _ tt)
                      (λ _ s₃.
                        check_nonce-NotUser vm input.tx.nonce (to_move_address input.tx.signer)
                          s₃))))
      ]
    where
      charge : InvalidTransactionCause → ℕ → vm.State → Outcome (Unit {0}) × vm.State
      charge cause cost t =
          paid vm (invalid_transaction cause)
            (charge_gas_cost vm input.eth_treasury false (to_move_address input.tx.signer) cost) t
