-- ===== src/Execution/Verify.antt =====
-- execution/src/canonical.rs: `verify_transaction`, before a transaction does anything else: chain,
-- intrinsic gas, the two fees and the nonce. The fees and the nonce are not metered.
pub mod Ledger
pub mod Payment
pub mod Errors
use op_move.Base.{
  ℕ, Bool, true, false, not, ◌&&◌, Option, none, some, AccountAddress, length, ◌==◌, if◌then◌else◌,
}
use op_move.Primitives.{to_move_address}
use op_move.Error.{
  Error, invalid_transaction, incorrect_chain_id, insufficient_intrinsic_gas, failed_to_pay_l1_fee,
  failed_to_pay_l2_fee,
}
use op_move.Transaction.Types.{NormalizedEthTransaction}
use op_move.Execution.Vm.{Outcome, ok, err, map_err, Vm, Run, ◌>>=◌, pure, throw}
use op_move.Execution.Nonces.{check_nonce}
use op_move.Execution.Token.{charge_gas_cost}

-- `CanonicalVerificationInput`, without the VM.
pub record CanonicalVerificationInput : Type 0 where
  pub tx : NormalizedEthTransaction
  pub genesis_chain_id : ℕ
  pub l1_cost : ℕ
  pub l2_cost : ℕ
  pub eth_treasury : AccountAddress

abbrev pub wrong_chain : Option ℕ → ℕ → Bool
wrong_chain none expected = false
wrong_chain (some chain_id) expected = not (chain_id == expected)

module _ (vm : Vm) where
  -- `and_then` on the two charges: the second is not made if the first fails.
  unfoldable pub charge_gas : ℕ → vm.State → Bool × vm.State
  charge_gas txn_size s =
      let intrinsic = vm.charge_intrinsic_gas txn_size s in
      if intrinsic.0 then vm.charge_io_gas txn_size intrinsic.1 else (false, intrinsic.1)

  abbrev pub paid : Error → Run vm (Unit {0}) → Run vm (Unit {0})
  paid e charge s = (map_err (λ _. e) (charge s).0, (charge s).1)

  unfoldable pub enough_gas : ℕ → Run vm (Unit {0})
  unfolding charge_gas
  enough_gas txn_size s =
      let charged = charge_gas txn_size s in
      if charged.0
      then (ok tt, charged.1)
      else (err (invalid_transaction insufficient_intrinsic_gas), charged.1)

  unfoldable pub verify_transaction : CanonicalVerificationInput → Run vm (Unit {0})
  unfolding enough_gas charge_gas_cost
  verify_transaction input =
      let sender = to_move_address input.tx.signer in
      if wrong_chain input.tx.chain_id input.genesis_chain_id
      then throw (invalid_transaction incorrect_chain_id)
      else (do
        _ ← enough_gas (length input.tx.input)
        _ ←
            paid (invalid_transaction failed_to_pay_l1_fee)
              (charge_gas_cost vm input.eth_treasury false sender input.l1_cost)
        _ ←
            paid (invalid_transaction failed_to_pay_l2_fee)
              (charge_gas_cost vm input.eth_treasury false sender input.l2_cost)
        check_nonce vm false input.tx.nonce sender)
