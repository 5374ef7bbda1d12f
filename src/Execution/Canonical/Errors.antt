-- ===== src/Execution/Canonical/Errors.antt =====
-- The execution of a canonical transaction never ends with a user error: such an error becomes a part
-- of the outcome.
use op_move.Base.{ℕ, ◌-◌, List, ◌≡◌, ◌==◌, Bool-cases, inl, inr, Address, Bytes}
use op_move.Primitives.{to_move_address}
use op_move.Error
use op_move.Error.{
  Error, Result, user, invalid_transaction, invariant_violation, eth_token_invariant_violation,
  refund_always_succeeds, from_vm_error,
}
use op_move.Transaction.Types.{TxKind, SerializableTransactionData, TransactionData, Log}
use op_move.Transaction.Parse.{
  Codec, Decoded, decoded, undecoded, from_decoded, is_l2_contract, is_empty, parse_call_data,
  parse_to, parse_from,
}
use op_move.Execution.Vm.{Vm, done, of_result, or_error, expect, inspect, caught}
use op_move.Execution.NotUser.{
  NotUser, NotUserResult, and-NotUser, and_then-NotUser, caught-NotUser, expect-NotUser,
  of_result-NotUser, replaced-NotUser,
}
use op_move.Execution.Session.{Session}
use op_move.Execution.Token.{refund_gas_cost}
use op_move.Execution.Verify.{verify_transaction, paid}
use op_move.Gas.{total_gas_used, l2_fee}
use op_move.EvmExt.Events.{logs_of_events}
use op_move.Execution.Verify.Errors.{verify_transaction-NotUser}
use op_move.Execution.Canonical.{
  Machine, Changes, CanonicalExecutionInput, Deployment, execute_data, replicate_after, collect_evm,
  collect, conclude, settle, verification_input, execute_in_session, session_id,
  execute_canonical_transaction, deploy_changes,
}

module _ (codec : Codec) where
  call_data-NotUser :
      (to : Address) (d : SerializableTransactionData) → NotUserResult (parse_call_data to d)
  unfolding parse_call_data
  call_data-NotUser to (SerializableTransactionData.entry_function f) =
      elim (Bool-cases (f.module_id.address == to_move_address to)) [
        | inl e ↦ rw e tt
        | inr e ↦ rw e tt
      ]
  call_data-NotUser to (SerializableTransactionData.evm_contract code) = tt
  call_data-NotUser to _ = tt

  decoded-NotUser :
      (to : Address) (d : Decoded SerializableTransactionData)
      → NotUserResult (Error.◌>>=◌ (from_decoded d) (parse_call_data to))
  decoded-NotUser to (decoded d) = call_data-NotUser to d
  decoded-NotUser to (undecoded e) = tt

  parse_to-NotUser : (to : TxKind) (input : Bytes) → NotUserResult (parse_to codec to input)
  unfolding parse_to
  parse_to-NotUser (TxKind.call to) input = elim (Bool-cases (is_l2_contract to)) [
    | inl e ↦ rw e tt
    | inr e ↦ elim (Bool-cases (is_empty input)) [
      | inl f ↦ rw (e, f) tt
      | inr f ↦ rw (e, f) (decoded-NotUser to (codec.decode_data input))
    ]
  ]
  parse_to-NotUser TxKind.create input = created (codec.decode_script_or_deployment input)
    where
      created :
          (d : Decoded _)
          → NotUserResult (
              Error.◌>>=◌ (from_decoded d) (λ x. Error.ok (TransactionData.script_or_deployment x)))
      created (decoded x) = tt
      created (undecoded e) = tt

module _ {vm : Vm} {session : Session vm} (machine : Machine session) where
  conclude-NotUser :
      (gas_used price : ℕ) (r : Result (Deployment machine))
      (c : Changes session.ChangeSet machine.StorageChanges × List Log)
      → NotUser (conclude machine gas_used price r c)
  unfolding conclude
  conclude-NotUser g p (Error.ok (d, w)) (c, l) = tt
  conclude-NotUser g p (Error.err (user e)) (c, l) = tt
  conclude-NotUser g p (Error.err (invalid_transaction e)) (c, l) = tt
  conclude-NotUser g p (Error.err (invariant_violation e)) (c, l) = tt

  pub collect_evm-NotUser : (f : _) → NotUser (collect_evm machine f)
  unfolding collect_evm
  collect_evm-NotUser (changes, events, accounts, storage) =
      and-NotUser (expect (logs_of_events machine.name_hash machine.deserialize_logs events)) _
        (expect-NotUser _)
        (λ logs.
          and-NotUser (expect (machine.squash changes accounts)) _ (expect-NotUser _)
            (λ merged. tt))

  collect-NotUser : (d : session.ChangeSet) (f : _) → NotUser (collect machine d f)
  unfolding collect
  collect-NotUser d f = and-NotUser (collect_evm machine f) _ (collect_evm-NotUser f) (λ collected.
      and-NotUser (expect (machine.squash collected.0.move_vm d)) _ (expect-NotUser _) (λ all. tt))

  -- The session always finishes.
  abbrev pub Finishes : Type 0
  Finishes = (s : vm.State) → (finished : _) × (machine.finish s ≡ done finished)

  pub finish-NotUser :
      Finishes → (s : vm.State) → NotUser (or_error from_vm_error (machine.finish s))
  finish-NotUser finishes s = let (finished, e) = finishes s in rw e tt

  settle-NotUser :
      Finishes
      → (input : CanonicalExecutionInput) (l2_cost : ℕ) (d : session.ChangeSet)
        (r : Result (Deployment machine)) (s : vm.State)
      → NotUser (settle machine input l2_cost d r s).0
  unfolding settle
  settle-NotUser finishes input l2_cost d r s =
      let gas_used = total_gas_used (machine.gas_counters s) machine.scaling_factor in
      let used = l2_fee input.l2_multiplier (record {
        gas_limit = gas_used;
        effective_gas_price = input.l2_input.effective_gas_price;
      }) in
      and_then-NotUser
        (paid vm (eth_token_invariant_violation refund_always_succeeds)
          (refund_gas_cost vm input.eth_treasury (to_move_address input.tx.signer) (l2_cost - used))
          s)
        _ (replaced-NotUser (eth_token_invariant_violation refund_always_succeeds) _ tt)
        (λ _ s₁.
          and_then-NotUser (inspect from_vm_error machine.finish s₁) _ (finish-NotUser finishes s₁)
            (λ f s₂.
              and_then-NotUser (collect machine d f, s₂) _ (collect-NotUser d f)
                (λ c _. conclude-NotUser gas_used input.l2_input.effective_gas_price r c)))

  in_session-NotUser :
      Finishes
      → (input : CanonicalExecutionInput) (tx_data : TransactionData) (s : vm.State)
      → NotUser (execute_in_session machine input tx_data s).0
  unfolding execute_in_session
  in_session-NotUser finishes input tx_data s =
      let l2_cost = l2_fee input.l2_multiplier input.l2_input in
      and_then-NotUser (verify_transaction vm (verification_input machine input l2_cost) s) _
        (verify_transaction-NotUser vm (verification_input machine input l2_cost) s)
        (λ _ s₁.
          and_then-NotUser (caught (execute_data machine input tx_data s₁)) _ (caught-NotUser _)
            (λ executed s₂.
              and_then-NotUser (caught (replicate_after machine executed s₂)) _ (caught-NotUser _)
                (λ outcome s₃.
                  settle-NotUser finishes input l2_cost (deploy_changes machine executed) outcome
                    s₃)))

  -- If sessions finish, then the execution of a transaction that is no deposit never ends with a user
  -- error, whatever its data is and whatever the functions that it calls do.
  pub execute_canonical_transaction-NotUser :
      Finishes
      → (codec : Codec) (input : CanonicalExecutionInput)
      → NotUser (execute_canonical_transaction machine codec input)
  unfolding execute_canonical_transaction parse_from
  execute_canonical_transaction-NotUser finishes codec input =
      and-NotUser (of_result (parse_from codec input.tx)) _
        (of_result-NotUser _ (parse_to-NotUser codec input.tx.to input.tx.input))
        (λ tx_data.
          in_session-NotUser finishes input tx_data
            (machine.new_session (session_id machine codec input tx_data) input.l2_input.gas_limit))
