-- ===== src/Execution/Canonical/Refund.antt =====
-- `execute_canonical_transaction` of execution/src/canonical.rs: what its end pays back.
use op_move.Base.{
  ℕ, ◌+◌, ◌-◌, ◌*◌, ◌≤◌, ◌≡◌, refl, false, AccountAddress, arith, ◌==◌, Bool-cases, inl, inr,
}
use op_move.Base.U256.{max_value}
use op_move.Primitives.{to_move_address}
use op_move.Error.{Result, from_vm_error}
use op_move.Gas.{total_gas_used, l2_fee}
use op_move.Gas.Charges.{l2_fee-unused}
use op_move.Execution.Vm.{Vm, Outcome, ok, and, and_then, or_error}
use op_move.Execution.Session.{Session}
use op_move.Execution.Token.{transfer_eth, refund_gas_cost}
use op_move.Execution.Verify.Ledger.{IsLedger}
use op_move.Execution.Canonical.{
  Machine, CanonicalExecutionInput, Deployment, settle, collect, conclude,
}

module _ (vm : Vm) (nonce balance : vm.State → AccountAddress → ℕ)
    (law : IsLedger vm nonce balance) where
  refund_moves :
      (treasury sender : AccountAddress) (amount : ℕ) (s : vm.State)
      → (treasury == sender) ≡ false
      → amount ≤ balance s treasury
      → (t : vm.State) × (refund_gas_cost vm treasury sender amount s ≡ (ok tt, t))
        × (balance t sender ≡ balance s sender + amount)
        × (balance t treasury ≡ balance s treasury - amount)
        × ((a : AccountAddress) → nonce t a ≡ nonce s a)
  unfolding refund_gas_cost transfer_eth
  refund_moves treasury sender amount s other h = elim (Bool-cases (amount == 0)) [
    | inl nothing ↦ (s, rw nothing, ground arith, ground arith, λ a. refl)
    | inr something ↦
        let (t, moved, less, more, same) = law.transferred s treasury sender amount other h in
        (t, rw (something, law.loaded s, moved), more, less, same)
  ]

-- The end of the session reads the state only, whether it fails or not.
collected_keeps :
    {S B C : Type 0} (o : Outcome B) (concluded : B → Outcome C) (s : S)
    → and_then (o, s) (λ b s. (concluded b, s)) ≡ (and o concluded, s)
collected_keeps (ok b) concluded s = refl
collected_keeps (Outcome.err e) concluded s = refl
collected_keeps Outcome.panicked concluded s = refl

finished_keeps :
    {S A B C : Type 0} (o : Outcome A) (collected : A → Outcome B) (concluded : B → Outcome C)
    (s : S)
    → and_then (o, s) (λ a s. and_then (collected a, s) (λ b s. (concluded b, s)))
      ≡ (and o (λ a. and (collected a) concluded), s)
finished_keeps (ok a) collected concluded s = collected_keeps (collected a) concluded s
finished_keeps (Outcome.err e) collected concluded s = refl
finished_keeps Outcome.panicked collected concluded s = refl

module _ {vm : Vm} {session : Session vm} (machine : Machine session)
    (nonce balance : vm.State → AccountAddress → ℕ) (law : IsLedger vm nonce balance) where
  -- The end of a transaction that is no deposit, when the charge for its gas limit has been taken and
  -- the gas used is within the limit. Whatever the transaction has come to, the refund does not fail:
  -- the sender gets back the price of the gas not used times the multiplier, the treasury pays that,
  -- and no nonce changes; and the outcome is made from the end of the session in the state after that.
  -- The charge is one that does not saturate, the treasury holds the amount, and it is not the sender.
  pub settle-refund :
      (input : CanonicalExecutionInput) (deployed : session.ChangeSet)
      (outcome : Result (Deployment machine)) (used : ℕ) (s : vm.State)
      → (input.eth_treasury == to_move_address input.tx.signer) ≡ false
      → total_gas_used (machine.gas_counters s) machine.scaling_factor ≡ used
      → used ≤ input.l2_input.gas_limit
      → input.l2_input.effective_gas_price * input.l2_input.gas_limit * input.l2_multiplier
        ≤ max_value
      → input.l2_input.effective_gas_price * (input.l2_input.gas_limit - used) * input.l2_multiplier
        ≤ balance s input.eth_treasury
      → (t : vm.State) × (settle machine input
            (l2_fee input.l2_multiplier input.l2_input)
            deployed
            outcome
            s
          ≡ (
            and (or_error from_vm_error (machine.finish t)) (λ finished.
                and
                  (collect machine deployed finished)
                  (conclude machine used input.l2_input.effective_gas_price outcome)),
            t,
          ))
        × (balance t (to_move_address input.tx.signer)
            ≡ balance s (to_move_address input.tx.signer)
              + input.l2_input.effective_gas_price
                * (input.l2_input.gas_limit - used)
                * input.l2_multiplier)
        × (balance t input.eth_treasury
            ≡ balance s input.eth_treasury
              - input.l2_input.effective_gas_price
                * (input.l2_input.gas_limit - used)
                * input.l2_multiplier)
        × ((a : AccountAddress) → nonce t a ≡ nonce s a)
  unfolding settle
  settle-refund input deployed outcome used s other counted within small covered =
      let amount =
        input.l2_input.effective_gas_price
        * (input.l2_input.gas_limit - used)
        * input.l2_multiplier in
      let due =
        l2_fee-unused input.l2_multiplier input.l2_input.effective_gas_price used
          input.l2_input.gas_limit within small in
      let (t, moved, more, less, same) =
        refund_moves vm nonce balance law input.eth_treasury (to_move_address input.tx.signer)
          amount s other covered in
      (
        t,
        rw (counted, due, moved)
            (finished_keeps (or_error from_vm_error (machine.finish t)) (collect machine deployed)
              (conclude machine used input.l2_input.effective_gas_price outcome) t),
        more,
        less,
        same,
      )
