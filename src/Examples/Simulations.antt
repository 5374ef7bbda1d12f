-- ===== src/Examples/Simulations.antt =====
-- The properties of simulated transactions at concrete inputs.
use op_move.Base.{◌≡◌, refl, false, some, none, ◌==◌, if◌then◌else◌}
use op_move.Base.U256.{u64_max}
use op_move.Primitives.{to_move_address}
use op_move.Error.{invalid_transaction, exhausted_account}
use op_move.Transaction.Types.{NormalizedEthTransaction, TxKind}
use op_move.Transaction.Normalize.{TransactionRequest}
use op_move.Execution.Vm.{ok, err}
use op_move.Execution.Nonces.{check_nonce}
use op_move.Execution.Canonical.{Machine}
use op_move.Execution.Simulate.{simulated_tx}
use op_move.Execution.Simulate.Nonce.{simulated_tx-check_nonce}
use op_move.Examples.Sessions.{session_over, machine_from}
use op_move.Examples.Nonces.{nonce, nonce_vm, nonce_vm-IsAccounts, nobody}

abbrev nonce_machine : Machine (session_over nonce_vm)
nonce_machine = machine_from {vm = nonce_vm} nobody

abbrev request : TransactionRequest
request = record {
  from = some 7;
  to = some (TxKind.call 8);
  nonce = none;
  value = some 1;
  chain_id = none;
  gas = none;
  max_priority_fee_per_gas = none;
  max_fee_per_gas = none;
  input = none;
  access_list = none;
}

simulated_tx-check_nonce_example :
    (tx : NormalizedEthTransaction) × (simulated_tx nonce_machine request ≡ ok tx)
    × ((check_nonce nonce_vm false tx.nonce (to_move_address 7) nobody).0 ≡ (
        if nonce nobody (to_move_address 7) == u64_max
        then err (invalid_transaction exhausted_account)
        else ok tt))
simulated_tx-check_nonce_example =
    simulated_tx-check_nonce nonce_machine nonce request 7 nobody nonce_vm-IsAccounts refl refl refl
