-- ===== src/App/Execute.antt =====
-- `Application::execute_transactions` of app/src/command.rs: the transactions of a block, one after
-- the other.
pub mod Numbering
use Prim.Native.Nat.{◌≤◌}
use op_move.Base.Partial.{◌>>=◌}
use op_move.Base.{
  ℕ, suc, ◌+◌, List, [], ◌∷◌, ◌++◌, Option, none, some, Bool, true, false, Address, B256, Bytes,
  ltb, if◌then◌else◌, length,
}
use op_move.Base.U256.{u64_max, u128_max, clamp, saturating_add, saturating_mul}
use op_move.Primitives.{to_eth_address}
use op_move.Error.{Error, user, invalid_transaction, invariant_violation, Result, ok, err}
use op_move.Transaction.Types.{
  TxKind, OpTxEnvelope, NormalizedExtendedTxEnvelope, canonical, deposited_tx, Receipt,
  OpReceiptEnvelope,
}
use op_move.Transaction.Normalize.{normalize}
use op_move.Transaction.Receipt.{wrap_receipt}
use op_move.Gas.{
  L1GasFeeInput, L2GasFeeInput, EcotoneGasFee, L1BlockInfo, l1_fee, l1_block_info, for_deposit,
  envelope_tip_per_gas, envelope_gas_limit, envelope_effective_gas_price,
}
use op_move.Chain.Types.{ExtendedReceipt}
use op_move.App.Types.{
  Deps, HeaderForExecution, ExecutionOutcome, TransactionExecutionOutcome, ExecutionInput,
}

-- A transaction with its hash and the size of its data.
pub record Candidate : Type 0 where
  pub tx_hash : B256
  pub tx : OpTxEnvelope
  pub l1_cost_input : L1GasFeeInput

-- The fee parameters are those of a deposit that stands first; without one there is no layer-1 fee.
-- A deposit with too little data panics.
unfoldable pub first_l1_fee : List Candidate → Option (Option EcotoneGasFee)
first_l1_fee [] = some none
first_l1_fee (c ∷ cs) = elim c.tx [
  | OpTxEnvelope.deposit tx ↦ (do fee ← for_deposit tx.input; some (some fee))
  | _ ↦ some none
]

abbrev l1_cost : Option EcotoneGasFee → L1GasFeeInput → ℕ
l1_cost none input = 0
l1_cost (some fee) input = l1_fee fee input

abbrev l1_info : Option EcotoneGasFee → L1GasFeeInput → Option L1BlockInfo
l1_info none input = none
l1_info (some fee) input = l1_block_info fee input

abbrev kind_to : TxKind → Option Address
kind_to (TxKind.call to) = some to
kind_to TxKind.create = none

abbrev envelope_to : NormalizedExtendedTxEnvelope → Option Address
envelope_to (canonical tx) = kind_to tx.to
envelope_to (deposited_tx tx) = kind_to tx.to

abbrev envelope_from : NormalizedExtendedTxEnvelope → Address
envelope_from (canonical tx) = tx.signer
envelope_from (deposited_tx tx) = tx.from

-- What is the same for all transactions of the block.
pub record Context : Type 0 where
  pub base_fee : ℕ
  pub block_header : HeaderForExecution
  pub l1_fee : Option EcotoneGasFee
  pub block_hash_lookup : ℕ → Option B256

-- `U64::from` of a `u128`, which panics when the number does not fit 64 bits.
abbrev pub checked_u64 : ℕ → Option ℕ
checked_u64 n = if ltb u64_max n then none else some n

module _ (d : Deps) where
  -- The variables of the loop.
  pub record Progress : Type 0 where
    pub state : d.State
    pub total_tip : ℕ
    pub receipts : List ExtendedReceipt
    pub cumulative_gas_used : ℕ
    pub logs_bloom : ℕ
    pub tx_index : ℕ
    pub log_offset : ℕ

  unfoldable pub start : d.State → Progress
  start state = record {
    state = state;
    total_tip = 0;
    receipts = [];
    cumulative_gas_used = 0;
    logs_bloom = d.bloom_zero;
    tx_index = 0;
    log_offset = 0;
  }

  abbrev pub cumulative_gas : Progress → TransactionExecutionOutcome d.Changes → ℕ
  cumulative_gas p outcome = clamp u128_max (p.cumulative_gas_used + outcome.gas_used)

  -- The receipt proper.
  abbrev pub execution_receipt : Progress → TransactionExecutionOutcome d.Changes → Receipt
  execution_receipt p outcome = record {
    status = elim outcome.vm_outcome [ none ↦ true | some e ↦ false ];
    cumulative_gas_used =
        if ltb (cumulative_gas p outcome) u64_max then cumulative_gas p outcome else u64_max;
    logs = outcome.logs;
  }

  -- The receipt with its place in the block; the block hash is set later.
  abbrev pub extended_receipt :
      Context
      → Candidate
      → NormalizedExtendedTxEnvelope
      → TransactionExecutionOutcome d.Changes
      → Progress
      → OpReceiptEnvelope
      → ExtendedReceipt
  extended_receipt ctx c normalized_tx outcome p receipt = record {
    transaction_hash = c.tx_hash;
    transaction_index = p.tx_index;
    to = envelope_to normalized_tx;
    from = envelope_from normalized_tx;
    receipt = receipt;
    l1_block_info = l1_info ctx.l1_fee c.l1_cost_input;
    gas_used = outcome.gas_used;
    l2_gas_price = outcome.l2_price;
    contract_address = elim outcome.deployment [
      | none ↦ none
      | some address ↦ some (to_eth_address address)
    ];
    logs_offset = p.log_offset;
    block_hash = 0;
    block_number = ctx.block_header.number;
    block_timestamp = ctx.block_header.timestamp;
  }

  abbrev pub advance :
      Context
      → Candidate
      → NormalizedExtendedTxEnvelope
      → TransactionExecutionOutcome d.Changes
      → Progress
      → d.State
      → OpReceiptEnvelope
      → Progress
  advance ctx c normalized_tx outcome p state receipt = record {
    state = state;
    total_tip =
        saturating_add p.total_tip
          (saturating_mul outcome.gas_used (envelope_tip_per_gas normalized_tx ctx.base_fee));
    receipts = p.receipts ++ extended_receipt ctx c normalized_tx outcome p receipt ∷ [];
    cumulative_gas_used = cumulative_gas p outcome;
    logs_bloom = d.accrue_bloom p.logs_bloom (d.logs_bloom outcome.logs);
    tx_index = p.tx_index + 1;
    log_offset = p.log_offset + length outcome.logs;
  }

  -- The rest of an iteration once a transaction has executed.
  unfoldable pub record_outcome :
      Context
      → Candidate
      → NormalizedExtendedTxEnvelope
      → TransactionExecutionOutcome d.Changes
      → Progress
      → Option Progress
  record_outcome ctx c normalized_tx outcome p = do
    state ← d.apply p.state outcome.changes
    receipt ← wrap_receipt c.tx (execution_receipt p outcome) (d.logs_bloom outcome.logs)
    some (advance ctx c normalized_tx outcome p state receipt)

  unfoldable pub execution_input :
      Context → Candidate → NormalizedExtendedTxEnvelope → ExecutionInput
  execution_input ctx c normalized_tx = record {
    tx = normalized_tx;
    tx_hash = c.tx_hash;
    l1_cost = l1_cost ctx.l1_fee c.l1_cost_input;
    l2_input = record {
      gas_limit = envelope_gas_limit normalized_tx;
      effective_gas_price = envelope_effective_gas_price normalized_tx ctx.base_fee;
    };
    block_header = ctx.block_header;
    block_hash_lookup = ctx.block_hash_lookup;
  }

  -- What becomes of a transaction: it is skipped, it panics, or it executes.
  pub data Verdict : Type 0 where
    skipped panicked : Verdict
    executed : NormalizedExtendedTxEnvelope → TransactionExecutionOutcome d.Changes → Verdict

  unfoldable pub verdict : Context → d.State → Candidate → Verdict
  unfolding execution_input
  verdict ctx state c = elim (normalize d.signatures c.tx) [
    | err e ↦ skipped
    | ok normalized_tx ↦ elim (d.execute_transaction state (execution_input ctx c normalized_tx)) [
      | ok outcome ↦ executed normalized_tx outcome
      | err (invalid_transaction e) ↦ skipped
      | err (user e) ↦ panicked
      | err (invariant_violation e) ↦ panicked
    ]
  ]

  -- The effect of a verdict.
  unfoldable pub act : Context → Candidate → Progress → Verdict → Option Progress
  unfolding record_outcome
  act ctx c p skipped = some p
  act ctx c p panicked = none
  act ctx c p (executed normalized_tx outcome) = record_outcome ctx c normalized_tx outcome p

  -- One iteration of the loop.
  unfoldable pub step : Context → Candidate → Progress → Option Progress
  step ctx c p = act ctx c p (verdict ctx p.state c)

  unfoldable pub run : Context → List Candidate → Progress → Option Progress
  run ctx [] p = some p
  run ctx (c ∷ cs) p = do p' ← step ctx c p; run ctx cs p'

  unfoldable pub execute_transactions :
      d.State
      → List Candidate
      → ℕ
      → HeaderForExecution
      → (ℕ → Option B256)
      → Option (ExecutionOutcome × List ExtendedReceipt × d.State)
  unfolding first_l1_fee start run
  execute_transactions state transactions base_fee block_header block_hash_lookup = do
    l1_fee ← first_l1_fee transactions
    p ←
        run
          (record {
            base_fee = base_fee;
            block_header = block_header;
            l1_fee = l1_fee;
            block_hash_lookup = block_hash_lookup;
          })
          transactions (start state)
    gas_used ← checked_u64 p.cumulative_gas_used
    some (
      record {
        receipts_root = d.receipts_root p.receipts;
        state_root = d.state_root p.state;
        logs_bloom = p.logs_bloom;
        gas_used = gas_used;
        total_tip = p.total_tip;
      },
      p.receipts,
      p.state,
    )
