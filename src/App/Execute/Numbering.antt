-- ===== src/App/Execute/Numbering.antt =====
-- The receipts of a block: their transactions and logs are numbered without a gap, and their gas
-- adds up to that of the block.
use native.Mathlib.Nat.{zero-add}
use mathlib.Core.Option.{some-injective}
use mathlib.Core.Path.{subst}
use op_move.Base.Partial.{>>=-eq-some}
use op_move.Base.{
  ℕ, B256, suc, ◌+◌, ◌≡◌, refl, sym, ap, ◌∙◌, List, [], ◌∷◌, ◌++◌, Option, some, arith, length,
  length-append,
}
use op_move.Base.U256.{u128_max, clamp}
use op_move.Transaction.Types.{OpReceiptEnvelope, NormalizedExtendedTxEnvelope}
use op_move.Transaction.Receipt.{as_receipt, wrap_receipt, as_receipt-wrap_receipt}
use op_move.Chain.Types.{ExtendedReceipt}
use op_move.App.Types.{Deps, TransactionExecutionOutcome, HeaderForExecution, ExecutionOutcome}
use op_move.App.Execute.{
  Candidate, Context, Progress, Verdict, advance, extended_receipt, execution_receipt, start,
  record_outcome, verdict, skipped, panicked, executed, act, step, checked_u64, first_l1_fee, run,
  execute_transactions,
}

abbrev pub log_count : ExtendedReceipt → ℕ
log_count r = length (as_receipt r.receipt).logs

pub total_logs : List ExtendedReceipt → ℕ
total_logs [] = 0
total_logs (r ∷ rs) = log_count r + total_logs rs

pub total_gas : List ExtendedReceipt → ℕ
total_gas [] = 0
total_gas (r ∷ rs) = r.gas_used + total_gas rs

-- Transaction indices count from `i`, and log offsets from `offset` by the logs of each receipt.
abbrev pub AreConsecutive : ℕ → ℕ → List ExtendedReceipt → Type 0
AreConsecutive i offset [] = Unit
AreConsecutive i offset (r ∷ rs) =
    (r.transaction_index ≡ i)
    × (r.logs_offset ≡ offset)
    × AreConsecutive (suc i) (offset + log_count r) rs

total_logs-snoc :
    (rs : List ExtendedReceipt) (r : ExtendedReceipt)
    → total_logs (rs ++ r ∷ []) ≡ total_logs rs + log_count r
unfolding total_logs
total_logs-snoc [] r = omega arith
total_logs-snoc (x ∷ xs) r = omega (arith, total_logs-snoc xs r)

total_gas-snoc :
    (rs : List ExtendedReceipt) (r : ExtendedReceipt)
    → total_gas (rs ++ r ∷ []) ≡ total_gas rs + r.gas_used
unfolding total_gas
total_gas-snoc [] r = omega arith
total_gas-snoc (x ∷ xs) r = omega (arith, total_gas-snoc xs r)

snoc-AreConsecutive :
    (rs : List ExtendedReceipt) (r : ExtendedReceipt) (i offset : ℕ)
    → AreConsecutive i offset rs
    → r.transaction_index ≡ i + length rs
    → r.logs_offset ≡ offset + total_logs rs
    → AreConsecutive i offset (rs ++ r ∷ [])
unfolding total_logs
snoc-AreConsecutive [] r i offset h e f = (omega arith, omega arith, tt)
snoc-AreConsecutive (x ∷ xs) r i offset h e f = (
  h.0,
  h.1,
  snoc-AreConsecutive xs r (suc i) (offset + log_count x) h.2 (omega arith) (omega arith),
)

module _ (d : Deps) where
  pub record IsNumbered (p : Progress d) : Type 0 where
    pub consecutive : AreConsecutive 0 0 p.receipts
    pub index : p.tx_index ≡ length p.receipts
    pub offset : p.log_offset ≡ total_logs p.receipts
    pub gas : p.cumulative_gas_used ≡ clamp u128_max (total_gas p.receipts)

  clamp-add : (hi a b : ℕ) → clamp hi (clamp hi a + b) ≡ clamp hi (a + b)
  clamp-add hi a b = ground arith

  advance-IsNumbered :
      (ctx : Context) (c : Candidate) (tx : NormalizedExtendedTxEnvelope)
      (outcome : TransactionExecutionOutcome d.Changes) (p : Progress d) (state : d.State)
      (e : OpReceiptEnvelope)
      → IsNumbered p
      → (as_receipt e).logs ≡ outcome.logs
      → IsNumbered (advance d ctx c tx outcome p state e)
  advance-IsNumbered ctx c tx outcome p state e n same =
      let r = extended_receipt d ctx c tx outcome p e in
      let more : log_count r ≡ length outcome.logs = ap length same in
      record {
        consecutive =
            snoc-AreConsecutive p.receipts r 0 0 n.consecutive (n.index ∙ sym (zero-add _))
              (n.offset ∙ sym (zero-add _));
        index = omega (arith, n.index, length-append p.receipts (r ∷ []));
        offset = omega (arith, total_logs-snoc p.receipts r, n.offset, more);
        gas =
            rw (n.gas, total_gas-snoc p.receipts r)
              (clamp-add u128_max (total_gas p.receipts) outcome.gas_used);
      }

  -- What an execution adds to the progress.
  pub record_outcome_lem :
      (ctx : Context) (c : Candidate) (tx : NormalizedExtendedTxEnvelope)
      (outcome : TransactionExecutionOutcome d.Changes) (p q : Progress d)
      → record_outcome d ctx c tx outcome p ≡ some q
      → (state : d.State) × (e : OpReceiptEnvelope) × (d.apply p.state outcome.changes ≡ some state)
        × (as_receipt e ≡ execution_receipt d p outcome)
        × (q ≡ advance d ctx c tx outcome p state e)
  unfolding record_outcome
  record_outcome_lem ctx c tx outcome p q h =
      let (state, applied, h1) = >>=-eq-some (d.apply p.state outcome.changes) _ h in
      let (e, wrapped, h2) =
        >>=-eq-some (wrap_receipt c.tx (execution_receipt d p outcome) (d.logs_bloom outcome.logs))
          _ h1 in
      (state, e, applied, as_receipt-wrap_receipt c.tx _ _ e wrapped, sym (some-injective _ _ h2))

  record_outcome-IsNumbered :
      (ctx : Context) (c : Candidate) (tx : NormalizedExtendedTxEnvelope)
      (outcome : TransactionExecutionOutcome d.Changes) (p q : Progress d)
      → IsNumbered p
      → record_outcome d ctx c tx outcome p ≡ some q
      → IsNumbered q
  record_outcome-IsNumbered ctx c tx outcome p q n h =
      let (state, e, applied, wrapped, made) = record_outcome_lem ctx c tx outcome p q h in
      rw made (advance-IsNumbered ctx c tx outcome p state e n (ap (λ r. r.logs) wrapped))

  act-IsNumbered :
      (ctx : Context) (c : Candidate) (p q : Progress d) (v : Verdict d)
      → IsNumbered p
      → act d ctx c p v ≡ some q
      → IsNumbered q
  unfolding act
  act-IsNumbered ctx c p q skipped n h = subst IsNumbered (some-injective _ _ h) n
  act-IsNumbered ctx c p q panicked n h = cc
  act-IsNumbered ctx c p q (executed tx outcome) n h =
      record_outcome-IsNumbered ctx c tx outcome p q n h

  step-IsNumbered :
      (ctx : Context) (c : Candidate) (p q : Progress d)
      → IsNumbered p
      → step d ctx c p ≡ some q
      → IsNumbered q
  unfolding step
  step-IsNumbered ctx c p q n h = act-IsNumbered ctx c p q (verdict d ctx p.state c) n h

  run-IsNumbered :
      (ctx : Context) (cs : List Candidate) (p q : Progress d)
      → IsNumbered p
      → run d ctx cs p ≡ some q
      → IsNumbered q
  unfolding run
  run-IsNumbered ctx [] p q n h = subst IsNumbered (some-injective _ _ h) n
  run-IsNumbered ctx (c ∷ cs) p q n h =
      let (p', stepped, rest) = >>=-eq-some (step d ctx c p) (λ p'. run d ctx cs p') h in
      run-IsNumbered ctx cs p' q (step-IsNumbered ctx c p p' n stepped) rest

  start-IsNumbered : (state : d.State) → IsNumbered (start d state)
  unfolding start total_logs total_gas
  start-IsNumbered state = record { consecutive = tt; index = refl; offset = refl; gas = refl }

  -- The outcome, from the progress at the end.
  pub execute_transactions_lem :
      (state : d.State) (cs : List Candidate) (base_fee : ℕ) (h : HeaderForExecution)
      (lookup : ℕ → Option B256) (outcome : ExecutionOutcome) (rs : List ExtendedReceipt)
      (after : d.State)
      → execute_transactions d state cs base_fee h lookup ≡ some (outcome, rs, after)
      → (ctx : Context) × (p : Progress d) × (run d ctx cs (start d state) ≡ some p)
        × (checked_u64 p.cumulative_gas_used ≡ some outcome.gas_used)
        × (p.receipts ≡ rs)
        × (p.state ≡ after)
  unfolding execute_transactions
  execute_transactions_lem state cs base_fee h lookup outcome rs after e =
      let (l1_fee, first, e1) = >>=-eq-some (first_l1_fee cs) _ e in
      let (p, ran, e2) = >>=-eq-some (run d _ cs (start d state)) _ e1 in
      let (gas, fits, e3) = >>=-eq-some (checked_u64 p.cumulative_gas_used) _ e2 in
      let made = some-injective _ _ e3 in
      (_, p, ran, fits ∙ ap (λ t. some t.0.gas_used) made, ap (λ t. t.1) made, ap (λ t. t.2) made)

gas_fits :
    (cumulative gas total : ℕ)
    → cumulative ≡ clamp u128_max total
    → checked_u64 cumulative ≡ some gas
    → gas ≡ total
gas_fits cumulative gas total e h = ground arith

-- The receipts of a block number its executed transactions and its logs without a gap, and the gas
-- of the block is the sum of the gas of its receipts.
pub execute_transactions-AreConsecutive :
    (d : Deps) (state : d.State) (cs : List Candidate) (base_fee : ℕ) (h : HeaderForExecution)
    (lookup : ℕ → Option B256) (outcome : ExecutionOutcome) (rs : List ExtendedReceipt)
    (after : d.State)
    → execute_transactions d state cs base_fee h lookup ≡ some (outcome, rs, after)
    → AreConsecutive 0 0 rs × (outcome.gas_used ≡ total_gas rs)
execute_transactions-AreConsecutive d state cs base_fee h lookup outcome rs after e =
    let (ctx, p, ran, fits, same, _) =
      execute_transactions_lem d state cs base_fee h lookup outcome rs after e in
    let n = run-IsNumbered d ctx cs (start d state) p (start-IsNumbered d state) ran in
    rw (← same) (
      n.consecutive,
      gas_fits p.cumulative_gas_used outcome.gas_used (total_gas p.receipts) n.gas fits,
    )
