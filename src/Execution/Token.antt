-- ===== src/Execution/Token.antt =====
-- execution/src/eth_token.rs: transfers and mints of the base token by the Move module `eth_token`.
use op_move.Base.{
  ℕ, Bool, false, List, [], ◌∷◌, AccountAddress, Bytes, none, some, ◌==◌, if◌then◌else◌,
}
use op_move.MoveTypes.{MoveValue, MoveTypeLayout}
use op_move.Error.{
  mint_always_succeeds, get_balance_always_succeeds, get_balance_returns_a_value,
  get_balance_return_deserializes, get_balance_returns_u256, eth_token_invariant_violation,
  from_vm_error,
}
use op_move.Execution.Vm.{Outcome, ok, err, Vm, FrameworkFunction, Run, ◌>>=◌, pure, lift, attempt}

pub record TransferArgs : Type 0 where
  pub from : AccountAddress
  pub to : AccountAddress
  pub amount : ℕ

abbrev pub token_admin : AccountAddress
token_admin = 1

-- Reads a balance that a function returned.
abbrev balance_of_value : MoveValue → Outcome ℕ
balance_of_value (MoveValue.u256 balance) = ok balance
balance_of_value _ = err (eth_token_invariant_violation get_balance_returns_u256)

module _ (vm : Vm) (metered : Bool) where
  unfoldable pub transfer_eth : TransferArgs → Run vm (Unit {0})
  transfer_eth args = if args.amount == 0 then pure tt else (do
    function ← attempt from_vm_error (λ s. (vm.load_function FrameworkFunction.transfer s, s))
    _ ← attempt from_vm_error (
        vm.execute_entry_function metered function (
          MoveValue.signer token_admin
          ∷ MoveValue.address args.from
          ∷ MoveValue.address args.to
          ∷ MoveValue.u256 args.amount
          ∷ []))
    pure tt)

  unfoldable pub mint_eth : AccountAddress → ℕ → Run vm (Unit {0})
  mint_eth to amount = if amount == 0 then pure tt else (do
    function ← attempt from_vm_error (λ s. (vm.load_function FrameworkFunction.mint s, s))
    _ ←
        attempt (λ e. eth_token_invariant_violation mint_always_succeeds)
          (vm.execute_entry_function metered function
            (MoveValue.signer token_admin ∷ MoveValue.address to ∷ MoveValue.u256 amount ∷ []))
    pure tt)

  -- The first loop of `replicate_transfers`, from the account that holds the tokens in the EVM.
  unfoldable pub replicate_origins : AccountAddress → List (AccountAddress × ℕ) → Run vm (Unit {0})
  unfolding transfer_eth
  replicate_origins evm_native [] = pure tt
  replicate_origins evm_native ((origin, value) ∷ origins) =
      let rest = replicate_origins evm_native origins in
      if value == 0
      then rest
      else (do _ ← transfer_eth (record { from = evm_native; to = origin; amount = value }); rest)

  unfoldable pub replicate_all : List TransferArgs → Run vm (Unit {0})
  unfolding transfer_eth
  replicate_all [] = pure tt
  replicate_all (transfer ∷ transfers) =
      let rest = replicate_all transfers in do _ ← transfer_eth transfer; rest

  unfoldable pub replicate_transfers :
      AccountAddress → List (AccountAddress × ℕ) → List TransferArgs → Run vm (Unit {0})
  unfolding replicate_origins replicate_all
  replicate_transfers evm_native origins transfers = do
    _ ← replicate_origins evm_native origins
    replicate_all transfers

  unfoldable pub first_balance : List (Bytes × MoveTypeLayout) → Outcome ℕ
  first_balance [] = err (eth_token_invariant_violation get_balance_returns_a_value)
  first_balance ((raw_output, layout) ∷ rest) = elim (vm.deserialize raw_output layout) [
    | none ↦ err (eth_token_invariant_violation get_balance_return_deserializes)
    | some value ↦ balance_of_value value
  ]

  unfoldable pub get_eth_balance : AccountAddress → Run vm ℕ
  unfolding first_balance
  get_eth_balance account = do
    return_values ←
        attempt (λ e. eth_token_invariant_violation get_balance_always_succeeds)
          (vm.call metered FrameworkFunction.get_balance (MoveValue.address account ∷ []))
    lift (first_balance return_values)

-- `MovedBaseTokenAccounts`, by the address of its treasury.
module _ (vm : Vm) (eth_treasury : AccountAddress) where
  unfoldable pub charge_gas_cost : Bool → AccountAddress → ℕ → Run vm (Unit {0})
  charge_gas_cost metered from amount =
      transfer_eth vm metered (record { from = from; to = eth_treasury; amount = amount })

  -- Refunds are never metered.
  unfoldable pub refund_gas_cost : AccountAddress → ℕ → Run vm (Unit {0})
  refund_gas_cost to amount =
      transfer_eth vm false (record { from = eth_treasury; to = to; amount = amount })
