-- ===== src/Execution/Verify/Payment.antt =====
-- What the verification of a transaction decides, from what the Move modules `account` and
-- `eth_token` promise.
use op_move.Base.{
  eq_refl, unwrap_or, not, ℕ, ◌+◌, ◌-◌, ◌≤◌, ◌<◌, ◌≡◌, refl, ◌∙◌, ap, true, false, AccountAddress,
  arith, ltb, ◌==◌, if◌then◌else◌, Bool-cases, inl, inr, length,
}
use op_move.Primitives.{to_move_address}
use op_move.Error.{
  Error, invalid_transaction, incorrect_chain_id, insufficient_intrinsic_gas, failed_to_pay_l1_fee,
  failed_to_pay_l2_fee, from_vm_error,
}
use op_move.Execution.Vm.{ok, err, Vm}
use op_move.Execution.Nonces.{check_nonce}
use op_move.Execution.Nonces.Sequence.{check_nonce_lem}
use op_move.Execution.Token.{transfer_eth, charge_gas_cost}
use op_move.Execution.Verify.{
  CanonicalVerificationInput, wrong_chain, charge_gas, enough_gas, verify_transaction,
}
use op_move.Execution.Verify.Ledger.{
  IsLedger, payment, wrong_chain-eq, has_gas, charge_gas-eq, charge_gas-keeps,
}

module _ (vm : Vm) (nonce balance : vm.State → AccountAddress → ℕ) (law : IsLedger vm nonce balance)
    (treasury : AccountAddress) where
  charge_covered :
      (s : vm.State) (a : AccountAddress) (amount : ℕ)
      → (a == treasury) ≡ false
      → amount ≤ balance s a
      → (t : vm.State) × (charge_gas_cost vm treasury false a amount s ≡ (ok tt, t))
        × (balance t a ≡ balance s a - amount)
        × (balance t treasury ≡ balance s treasury + amount)
        × ((b : AccountAddress) → nonce t b ≡ nonce s b)
  unfolding charge_gas_cost transfer_eth
  charge_covered s a amount other h = elim (Bool-cases (amount == 0)) [
    | inl nothing ↦ (s, rw nothing, ground arith, ground arith, λ b. refl)
    | inr something ↦
        let (t, moved, less, more, same) = law.transferred s a treasury amount other h in
        (t, rw (something, law.loaded s, moved), less, more, same)
  ]

  charge_uncovered :
      (s : vm.State) (a : AccountAddress) (amount : ℕ)
      → balance s a < amount
      → (e : Error) × (t : vm.State) × (charge_gas_cost vm treasury false a amount s ≡ (err e, t))
  unfolding charge_gas_cost transfer_eth
  charge_uncovered s a amount h =
      let (e, t, stopped) = law.refused s a treasury amount h in
      let something : (amount == 0) ≡ false = ground arith in
      (from_vm_error e, t, rw (something, law.loaded s, stopped))

  enough_gas_lem :
      (n : ℕ) (s : vm.State)
      → enough_gas vm n s ≡ (
        if (charge_gas vm n s).0
            then ok tt
            else err (invalid_transaction insufficient_intrinsic_gas),
        (charge_gas vm n s).1,
      )
  unfolding enough_gas
  enough_gas_lem n s = elim (Bool-cases (charge_gas vm n s).0) [ inl e ↦ rw e | inr e ↦ rw e ]

  module _ (input : CanonicalVerificationInput) (s : vm.State) where
    abbrev sender : AccountAddress
    sender = to_move_address input.tx.signer

    abbrev charged : vm.State
    charged = (charge_gas vm (length input.tx.input) s).1

    module _ (same : input.eth_treasury ≡ treasury)
        (right : wrong_chain input.tx.chain_id input.genesis_chain_id ≡ false)
        (enough : (charge_gas vm (length input.tx.input) s).0 ≡ true) where
      l1_unpaid :
          balance charged sender < input.l1_cost
          → (verify_transaction vm input s).0 ≡ err (invalid_transaction failed_to_pay_l1_fee)
      unfolding verify_transaction
      l1_unpaid h =
          let (e, t, stopped) = charge_uncovered charged sender input.l1_cost h in
          rw (right, enough_gas_lem (length input.tx.input) s, enough, same, stopped)

      module _ (other : (sender == treasury) ≡ false)
          (l1 : input.l1_cost ≤ balance charged sender) where
        l2_unpaid :
            balance charged sender - input.l1_cost < input.l2_cost
            → (verify_transaction vm input s).0 ≡ err (invalid_transaction failed_to_pay_l2_fee)
        unfolding verify_transaction
        l2_unpaid h =
            let (t, went, less, _, _) = charge_covered charged sender input.l1_cost other l1 in
            let (e, u, stopped) = charge_uncovered t sender input.l2_cost (rw less h) in
            rw (right, enough_gas_lem (length input.tx.input) s, enough, same, went, stopped)

        paid_up :
            input.l2_cost ≤ balance charged sender - input.l1_cost
            → (t : vm.State) × (verify_transaction vm input s
                ≡ check_nonce vm false input.tx.nonce sender t)
              × ((a : AccountAddress) → nonce t a ≡ nonce s a)
              × (balance t sender + (input.l1_cost + input.l2_cost) ≡ balance s sender)
              × (balance t treasury ≡ balance s treasury + (input.l1_cost + input.l2_cost))
        unfolding verify_transaction
        paid_up h =
            let (t, went, less, more, kept) =
              charge_covered charged sender input.l1_cost other l1 in
            let (u, went', less', more', kept') =
              charge_covered t sender input.l2_cost other (rw less h) in
            (
              u,
              rw (right, enough_gas_lem (length input.tx.input) s, enough, same, went, went'),
              λ a.
                  kept' a
                  ∙ kept a
                  ∙ (charge_gas-keeps vm nonce balance law (length input.tx.input) s a).1,
              omega (
                arith,
                less,
                less',
                l1,
                h,
                (charge_gas-keeps vm nonce balance law (length input.tx.input) s sender).0,
              ),
              omega (
                arith,
                more,
                more',
                (charge_gas-keeps vm nonce balance law (length input.tx.input) s treasury).0,
              ),
            )

  wrong_chain_lem :
      (input : CanonicalVerificationInput) (s : vm.State)
      → wrong_chain input.tx.chain_id input.genesis_chain_id ≡ true
      → (verify_transaction vm input s).0 ≡ err (invalid_transaction incorrect_chain_id)
  unfolding verify_transaction
  wrong_chain_lem input s e = rw e

  no_gas_lem :
      (input : CanonicalVerificationInput) (s : vm.State)
      → wrong_chain input.tx.chain_id input.genesis_chain_id ≡ false
      → (charge_gas vm (length input.tx.input) s).0 ≡ false
      → (verify_transaction vm input s).0 ≡ err (invalid_transaction insufficient_intrinsic_gas)
  unfolding verify_transaction
  no_gas_lem input s e g = rw (e, enough_gas_lem (length input.tx.input) s, g)

  payment_lem :
      (input : CanonicalVerificationInput) (s : vm.State)
      → input.eth_treasury ≡ treasury
      → wrong_chain input.tx.chain_id input.genesis_chain_id ≡ false
      → (charge_gas vm (length input.tx.input) s).0 ≡ true
      → (sender input s == treasury) ≡ false
      → (verify_transaction vm input s).0
        ≡ payment input (balance s (sender input s)) (nonce s (sender input s))
  payment_lem input s same right enough other =
      let kept =
        (charge_gas-keeps vm nonce balance law (length input.tx.input) s (sender input s)).0 in
      elim (Bool-cases (ltb (balance s (sender input s)) input.l1_cost)) [
        | inl poor ↦ l1_unpaid input s same right enough (rw kept (ground arith)) ∙ rw poor
        | inr rich ↦
            elim (Bool-cases (ltb (balance s (sender input s) - input.l1_cost) input.l2_cost)) [
              | inl poor ↦
                  l2_unpaid input s same right enough other (rw kept (ground arith))
                    (rw kept (ground arith))
                  ∙ rw (rich, poor)
              | inr funded ↦
                  let (t, checked, nonces, _, _) =
                    paid_up input s same right enough other (rw kept (ground arith))
                      (rw kept (ground arith)) in
                  let (result, _) =
                    check_nonce_lem vm nonce t input.tx.nonce (sender input s) (sender input s)
                      law.accounts in
                  ap (λ r. r.0) checked ∙ result ∙ rw (nonces (sender input s), rich, funded)
            ]
      ]

-- The verification of a transaction whose sender is not the treasury, in full: a wrong chain is
-- refused first, then too little gas, then a balance below the layer-1 fee, then a rest below the
-- layer-2 fee, then a wrong or exhausted nonce; all others pass.
pub verify_transaction_lem :
    (vm : Vm) (nonce balance : vm.State → AccountAddress → ℕ) (input : CanonicalVerificationInput)
    (s : vm.State)
    → IsLedger vm nonce balance
    → (to_move_address input.tx.signer == input.eth_treasury) ≡ false
    → (verify_transaction vm input s).0 ≡ (
        if not (unwrap_or input.tx.chain_id input.genesis_chain_id == input.genesis_chain_id)
        then err (invalid_transaction incorrect_chain_id)
        else if has_gas vm (length input.tx.input) s
        then payment input
            (balance s (to_move_address input.tx.signer))
            (nonce s (to_move_address input.tx.signer))
        else err (invalid_transaction insufficient_intrinsic_gas))
verify_transaction_lem vm nonce balance input s law other =
    let chain = wrong_chain-eq input.tx.chain_id input.genesis_chain_id in
    let gas = charge_gas-eq vm (length input.tx.input) s in
    elim (Bool-cases
      (not (unwrap_or input.tx.chain_id input.genesis_chain_id == input.genesis_chain_id))) [
        | inl wrong ↦
            wrong_chain_lem vm nonce balance law input.eth_treasury input s (chain ∙ wrong)
            ∙ rw wrong
        | inr right ↦ elim (Bool-cases (has_gas vm (length input.tx.input) s)) [
          | inl enough ↦
              payment_lem vm nonce balance law input.eth_treasury input s refl (chain ∙ right)
                (gas ∙ enough) other
              ∙ rw (right, enough)
          | inr short ↦
              no_gas_lem vm nonce balance law input.eth_treasury input s (chain ∙ right)
                (gas ∙ short)
              ∙ rw (right, short)
        ]
      ]

-- A transaction whose chain, gas and balance are right pays both fees to the treasury, in full,
-- before its nonce is checked; no nonce has changed by then.
pub verify_transaction-check_nonce :
    (vm : Vm) (nonce balance : vm.State → AccountAddress → ℕ) (input : CanonicalVerificationInput)
    (s : vm.State)
    → IsLedger vm nonce balance
    → (to_move_address input.tx.signer == input.eth_treasury) ≡ false
    → unwrap_or input.tx.chain_id input.genesis_chain_id ≡ input.genesis_chain_id
    → has_gas vm (length input.tx.input) s ≡ true
    → input.l1_cost + input.l2_cost ≤ balance s (to_move_address input.tx.signer)
    → (t : vm.State) × (verify_transaction vm input s
        ≡ check_nonce vm false input.tx.nonce (to_move_address input.tx.signer) t)
      × ((a : AccountAddress) → nonce t a ≡ nonce s a)
      × (balance t (to_move_address input.tx.signer) + (input.l1_cost + input.l2_cost)
          ≡ balance s (to_move_address input.tx.signer))
      × (balance t input.eth_treasury
          ≡ balance s input.eth_treasury + (input.l1_cost + input.l2_cost))
verify_transaction-check_nonce vm nonce balance input s law other right enough funds =
    let kept =
      (charge_gas-keeps vm nonce balance law (length input.tx.input) s
        (to_move_address input.tx.signer)).0 in
    paid_up vm nonce balance law input.eth_treasury input s refl
      (wrong_chain-eq input.tx.chain_id input.genesis_chain_id ∙ rw (right, eq_refl))
      (charge_gas-eq vm (length input.tx.input) s ∙ enough) other (rw kept (omega arith))
      (rw kept (omega arith))
