-- ===== src/Execution/Canonical/Verified.antt =====
-- A transaction has an outcome only after its verification.
use op_move.Base.{ℕ, ◌-◌, ◌≡◌, ap, sym, none, List, ◌⊎◌, inl, inr}
use op_move.Primitives.{to_move_address}
use op_move.Error
use op_move.Error.{
  Error, Result, UserError, user, invalid_transaction, invariant_violation,
  eth_token_invariant_violation, refund_always_succeeds, from_vm_error,
}
use op_move.Transaction.Types.{TransactionData, Log}
use op_move.Transaction.Parse.{Codec, parse_from}
use op_move.Gas.{total_gas_used, l2_fee}
use op_move.Execution.Vm.{Vm, ok, of_result, caught, inspect}
use op_move.Execution.Inversion.{and-ok, and_then-ok, ok-injective}
use op_move.Execution.Session.{Session}
use op_move.Execution.Token.{refund_gas_cost}
use op_move.Execution.Verify.{verify_transaction, paid}
use op_move.Execution.Canonical.{
  Machine, Changes, CanonicalExecutionInput, Deployment, TxOutcome, execute_data, replicate_after,
  collect, conclude, settle, verification_input, execute_in_session, session_id,
  execute_canonical_transaction, deploy_changes,
}

of_result-ok : {A : Type 0} (r : Result A) {a : A} → of_result r ≡ ok a → r ≡ Error.ok a
of_result-ok (Error.ok a) e = cc
of_result-ok (Error.err x) e = cc

module _ {vm : Vm} {session : Session vm} (machine : Machine session) where
  -- What every outcome shows: the price that was asked, and nothing deployed where the user failed.
  abbrev pub Shows : CanonicalExecutionInput → TxOutcome machine → Type 0
  Shows input outcome =
      (outcome.l2_price ≡ input.l2_input.effective_gas_price)
      × ((outcome.vm_outcome ≡ none) ⊎ (outcome.deployment ≡ none))

  conclude-Shows :
      (gas_used price : ℕ) (r : Result (Deployment machine))
      (c : Changes session.ChangeSet machine.StorageChanges × List Log)
      {outcome : TxOutcome machine}
      → conclude machine gas_used price r c ≡ ok outcome
      → (outcome.l2_price ≡ price) × ((outcome.vm_outcome ≡ none) ⊎ (outcome.deployment ≡ none))
  unfolding conclude
  conclude-Shows g p (Error.ok (d, w)) (c, l) e =
      let same = ok-injective e in
      (sym (ap (λ o. o.l2_price) same), inl (sym (ap (λ o. o.vm_outcome) same)))
  conclude-Shows g p (Error.err (user x)) (c, l) e =
      let same = ok-injective e in
      (sym (ap (λ o. o.l2_price) same), inr (sym (ap (λ o. o.deployment) same)))
  conclude-Shows g p (Error.err (invalid_transaction x)) (c, l) e = cc
  conclude-Shows g p (Error.err (invariant_violation x)) (c, l) e = cc

  settle-Shows :
      (input : CanonicalExecutionInput) (l2_cost : ℕ) (d : session.ChangeSet)
      (r : Result (Deployment machine)) (s : vm.State) {outcome : TxOutcome machine}
      → (settle machine input l2_cost d r s).0 ≡ ok outcome
      → Shows input outcome
  unfolding settle
  settle-Shows input l2_cost d r s e =
      let gas_used = total_gas_used (machine.gas_counters s) machine.scaling_factor in
      let used = l2_fee input.l2_multiplier (record {
        gas_limit = gas_used;
        effective_gas_price = input.l2_input.effective_gas_price;
      }) in
      let (_, s₁, _, e₁) =
        and_then-ok
          (paid vm (eth_token_invariant_violation refund_always_succeeds)
            (refund_gas_cost vm input.eth_treasury (to_move_address input.tx.signer)
              (l2_cost - used))
            s)
          _ e in
      let (f, s₂, _, e₂) = and_then-ok (inspect from_vm_error machine.finish s₁) _ e₁ in
      let (c, _, _, e₃) = and_then-ok (collect machine d f, s₂) _ e₂ in
      conclude-Shows gas_used input.l2_input.effective_gas_price r c e₃

  in_session_verified :
      (input : CanonicalExecutionInput) (tx_data : TransactionData) (s : vm.State)
      {outcome : TxOutcome machine}
      → (execute_in_session machine input tx_data s).0 ≡ ok outcome
      → ((verify_transaction vm
            (verification_input machine input (l2_fee input.l2_multiplier input.l2_input))
            s).0
          ≡ ok tt)
        × Shows input outcome
  unfolding execute_in_session
  in_session_verified input tx_data s e =
      let l2_cost = l2_fee input.l2_multiplier input.l2_input in
      let (_, s₁, verified, e₁) =
        and_then-ok (verify_transaction vm (verification_input machine input l2_cost) s) _ e in
      let (executed, s₂, _, e₂) =
        and_then-ok (caught (execute_data machine input tx_data s₁)) _ e₁ in
      let (outcome, s₃, _, e₃) = and_then-ok (caught (replicate_after machine executed s₂)) _ e₂ in
      (
        ap (λ r. r.0) verified,
        settle-Shows input l2_cost (deploy_changes machine executed) outcome s₃ e₃,
      )

  -- If a transaction that is no deposit has an outcome, then its data can be read, its verification in
  -- the new session has succeeded, with the layer-2 cost of the gas limit, the outcome carries the
  -- price that was asked, and where it is a failure it names no deployed account.
  pub execute_canonical_transaction-verified :
      (codec : Codec) (input : CanonicalExecutionInput) {outcome : TxOutcome machine}
      → execute_canonical_transaction machine codec input ≡ ok outcome
      → (tx_data : TransactionData) × (parse_from codec input.tx ≡ Error.ok tx_data)
        × ((verify_transaction vm
              (verification_input machine input (l2_fee input.l2_multiplier input.l2_input))
              (machine.new_session
                (session_id machine codec input tx_data)
                input.l2_input.gas_limit)).0
            ≡ ok tt)
        × Shows input outcome
  unfolding execute_canonical_transaction
  execute_canonical_transaction-verified codec input e =
      let (tx_data, parsed, e₁) = and-ok (of_result (parse_from codec input.tx)) _ e in
      let (verified, shows) =
        in_session_verified input tx_data
          (machine.new_session (session_id machine codec input tx_data) input.l2_input.gas_limit)
          e₁ in
      (tx_data, of_result-ok (parse_from codec input.tx) parsed, verified, shows)
