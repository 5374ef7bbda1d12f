-- ===== src/Execution/Simulate/Nonce.antt =====
-- The nonce of a simulated transaction: execution/src/simulate.rs with execution/src/nonces.rs.
use op_move.Base.{
  ℕ, ◌≡◌, refl, ap, sym, Bool-cases, inl, inr, ◌∙◌, false, none, some, Address, AccountAddress,
  ◌==◌, if◌then◌else◌, eq_refl,
}
use op_move.Base.U256.{u64_max}
use op_move.Primitives.{to_move_address}
use op_move.Error.{invalid_transaction, exhausted_account}
use op_move.Transaction.Types.{NormalizedEthTransaction}
use op_move.Transaction.Normalize.{TransactionRequest, from_request}
use op_move.Execution.Vm.{Vm, ok, err}
use op_move.Execution.Session.{Session}
use op_move.Execution.Nonces.{check_nonce}
use op_move.Execution.Nonces.Sequence.{
  IsAccounts, check_nonce_lem, get_account_nonce_lem, get_account_nonce_missing,
}
use op_move.Execution.Canonical.{Machine}
use op_move.Execution.Simulate.{default_session_id, or_default, quick_get_nonce, simulated_tx}

module _ {vm : Vm} {session : Session vm} (machine : Machine session)
    (nonce : vm.State → AccountAddress → ℕ) (law : IsAccounts vm nonce) where
  pub quick_get_nonce_lem :
      (a : AccountAddress)
      → quick_get_nonce machine a ≡ ok (nonce (machine.new_session default_session_id 0) a)
  unfolding quick_get_nonce
  quick_get_nonce_lem a =
      let s = machine.new_session default_session_id 0 in
      elim (Bool-cases (law.exists s a)) [
        | inl here ↦
            let (t, e, still, same) = get_account_nonce_lem vm nonce law s a here in
            ap (λ r. or_default r.0) e
        | inr gone ↦
            let (t, e) = get_account_nonce_missing vm nonce law s a gone in
            ap (λ r. or_default r.0) e ∙ ap ok (sym (law.missing s a gone))
      ]

-- A simulated request with a sender and without a nonce becomes a transaction whose nonce is the one
-- to come, also where the account of the sender does not exist yet: in every state in which the
-- account has the nonce that queries see, the check of the nonce passes, unless the account is
-- exhausted.
pub simulated_tx-check_nonce :
    {vm : Vm} {session : Session vm} (machine : Machine session)
    (nonce : vm.State → AccountAddress → ℕ) (request : TransactionRequest) (a : Address)
    (s : vm.State)
    → IsAccounts vm nonce
    → request.from ≡ some a
    → request.nonce ≡ none
    → nonce s (to_move_address a)
      ≡ nonce (machine.new_session default_session_id 0) (to_move_address a)
    → (tx : NormalizedEthTransaction) × (simulated_tx machine request ≡ ok tx)
      × ((check_nonce vm false tx.nonce (to_move_address a) s).0 ≡ (
          if nonce s (to_move_address a) == u64_max
          then err (invalid_transaction exhausted_account)
          else ok tt))
unfolding simulated_tx from_request
simulated_tx-check_nonce {vm = vm} machine nonce request a s law from nothing same =
    let account = to_move_address a in
    let (checked, _) = check_nonce_lem vm nonce s (nonce s account) account account law in
    (
      record (from_request request) { nonce = nonce s account },
      rw (from, nothing, quick_get_nonce_lem machine nonce law account, same) refl,
      checked ∙ rw (eq_refl (nonce s account)),
    )
