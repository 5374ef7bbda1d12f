-- ===== src/Execution/Verify/Ledger.antt =====
-- What the Move modules `account` and `eth_token` promise, and the decision on a transaction as a
-- function of its sender's funds and nonce.
use op_move.Base.U256.{u64_max}
use op_move.Base.{
  Bool, Option, none, some, eq_refl, unwrap_or, ◌&&◌, not, ℕ, ◌+◌, ◌-◌, ◌≤◌, ◌<◌, ◌≡◌, refl, ◌∙◌,
  false, List, [], ◌∷◌, AccountAddress, ltb, ◌==◌, if◌then◌else◌, Bool-cases, inl, inr,
}
use op_move.MoveTypes.{VmError, MoveValue}
use op_move.Error.{
  exhausted_account, incorrect_nonce, invalid_transaction, failed_to_pay_l1_fee,
  failed_to_pay_l2_fee,
}
use op_move.Execution.Vm.{Outcome, ok, err, Vm, FrameworkFunction, done, failed}
use op_move.Execution.Nonces.Sequence.{IsAccounts}
use op_move.Execution.Token.{token_admin}
use op_move.Execution.Verify.{CanonicalVerificationInput, wrong_chain, charge_gas}

abbrev pub transfer_arguments : AccountAddress → AccountAddress → ℕ → List MoveValue
transfer_arguments from to amount =
    MoveValue.signer token_admin
    ∷ MoveValue.address from
    ∷ MoveValue.address to
    ∷ MoveValue.u256 amount
    ∷ []

-- An unmetered transfer between two accounts moves the amount if the balance covers it, and fails
-- otherwise; no transfer and no charge of gas changes a nonce.
pub record IsLedger (vm : Vm) (nonce balance : vm.State → AccountAddress → ℕ) : Type 0 where
  pub accounts : IsAccounts vm nonce
  pub function : vm.Function
  pub loaded : (s : vm.State) → vm.load_function FrameworkFunction.transfer s ≡ done function
  pub transferred :
      (s : vm.State) (from to : AccountAddress) (amount : ℕ)
      → (from == to) ≡ false
      → amount ≤ balance s from
      → (t : vm.State) × (vm.execute_entry_function false function
            (transfer_arguments from to amount)
            s
          ≡ (done tt, t))
        × (balance t from ≡ balance s from - amount)
        × (balance t to ≡ balance s to + amount)
        × ((a : AccountAddress) → nonce t a ≡ nonce s a)
  pub refused :
      (s : vm.State) (from to : AccountAddress) (amount : ℕ)
      → balance s from < amount
      → (e : VmError) × (t : vm.State) × (vm.execute_entry_function false function
            (transfer_arguments from to amount)
            s
          ≡ (failed e, t))
  pub intrinsic-keeps :
      (n : ℕ) (s : vm.State) (a : AccountAddress)
      → (balance (vm.charge_intrinsic_gas n s).1 a ≡ balance s a)
        × (nonce (vm.charge_intrinsic_gas n s).1 a ≡ nonce s a)
  pub io-keeps :
      (n : ℕ) (s : vm.State) (a : AccountAddress)
      → (balance (vm.charge_io_gas n s).1 a ≡ balance s a)
        × (nonce (vm.charge_io_gas n s).1 a ≡ nonce s a)

-- The decision on the two fees and the nonce, from the funds and the nonce of the sender.
abbrev pub payment : CanonicalVerificationInput → ℕ → ℕ → Outcome (Unit {0})
payment input funds account_nonce =
    if ltb funds input.l1_cost
    then err (invalid_transaction failed_to_pay_l1_fee)
    else if ltb (funds - input.l1_cost) input.l2_cost
    then err (invalid_transaction failed_to_pay_l2_fee)
    else if input.tx.nonce == account_nonce
    then (if account_nonce == u64_max then err (invalid_transaction exhausted_account) else ok tt)
    else err (invalid_transaction (incorrect_nonce account_nonce input.tx.nonce))

-- A transaction without a chain id counts as one for this chain.
pub wrong_chain-eq :
    (chain_id : Option ℕ) (expected : ℕ)
    → wrong_chain chain_id expected ≡ not (unwrap_or chain_id expected == expected)
wrong_chain-eq none expected = rw eq_refl
wrong_chain-eq (some chain_id) expected = refl

-- Both charges must succeed, the second after the first.
abbrev pub has_gas : (vm : Vm) → ℕ → vm.State → Bool
has_gas vm n s =
    (vm.charge_intrinsic_gas n s).0 && (vm.charge_io_gas n (vm.charge_intrinsic_gas n s).1).0

pub charge_gas-eq : (vm : Vm) (n : ℕ) (s : vm.State) → (charge_gas vm n s).0 ≡ has_gas vm n s
unfolding charge_gas
charge_gas-eq vm n s = elim (Bool-cases (vm.charge_intrinsic_gas n s).0) [
  | inl e ↦ rw e
  | inr e ↦ rw e
]

module _ (vm : Vm) (nonce balance : vm.State → AccountAddress → ℕ)
    (law : IsLedger vm nonce balance) where
  pub charge_gas-keeps :
      (n : ℕ) (s : vm.State) (a : AccountAddress)
      → (balance (charge_gas vm n s).1 a ≡ balance s a)
        × (nonce (charge_gas vm n s).1 a ≡ nonce s a)
  unfolding charge_gas
  charge_gas-keeps n s a =
      let (b1, n1) = law.intrinsic-keeps n s a in
      let (b2, n2) = law.io-keeps n (vm.charge_intrinsic_gas n s).1 a in
      elim (Bool-cases (vm.charge_intrinsic_gas n s).0) [
        | inl e ↦ rw e (b2 ∙ b1, n2 ∙ n1)
        | inr e ↦ rw e (b1, n1)
      ]
