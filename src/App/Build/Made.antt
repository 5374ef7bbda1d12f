-- ===== src/App/Build/Made.antt =====
-- What a block that was built consists of.
use mathlib.Core.Option.{some-injective}
use op_move.Base.Partial.{◌>>=◌, >>=-eq-some}
use op_move.Base.{
  ℕ, ◌≡◌, sym, ◌∙◌, ap, some, List, map, unwrap_or, PayloadId, Bool-cases, is_some, inl, inr, ◌⊎◌,
  true, false,
}
use op_move.Transaction.Types.{OpTxEnvelope}
use op_move.BaseFee.{base_fee_per_gas}
use op_move.Chain.Types.{ExtendedBlock, ExtendedReceipt}
use op_move.Chain.Blocks
use op_move.Chain.Responses.{payload_by_id}
use op_move.App.Types.{Deps, Application, Payload, ExecutionOutcome}
use op_move.App.Execute.{execute_transactions}
use op_move.App.Build.{
  candidates, hash_by_number, execution_header, new_header, new_block, store, build,
  start_block_build,
}

module _ (d : Deps) where
  abbrev pub block_transactions : Application d → Payload → List OpTxEnvelope
  block_transactions app attributes = map (λ c. c.tx) (candidates d app attributes)

  -- The steps of a build that succeeds.
  pub record IsBuilt (app : Application d) (attributes : Payload) (id : PayloadId)
      (block : ExtendedBlock) (rs : List ExtendedReceipt) (after : Application d) : Type 0 where
    pub parent : ExtendedBlock
    pub base_fee : ℕ
    pub outcome : ExecutionOutcome
    pub state : d.State
    pub parent_last : Blocks.last d.blocks app.storage.block_memory ≡ some parent
    pub priced :
        base_fee_per_gas app.gas_fee parent.block.header.gas_limit parent.block.header.gas_used
          (unwrap_or parent.block.header.base_fee_per_gas 0)
        ≡ some base_fee
    pub ran :
        execute_transactions d app.state
          (candidates d app attributes)
          base_fee
          (execution_header d parent attributes)
          (hash_by_number d app)
        ≡ some (outcome, rs, state)
    pub made :
        block
        ≡ new_block d
            (new_header d parent attributes (block_transactions app attributes) base_fee outcome)
            (block_transactions app attributes)
            outcome.total_tip
            id
    pub stored : after ≡ store d app block (block_transactions app attributes) rs state

  pub build_lem :
      (app : Application d) (attributes : Payload) (id : PayloadId) (block : ExtendedBlock)
      (rs : List ExtendedReceipt) (after : Application d)
      → build d app attributes id ≡ some (block, rs, after)
      → IsBuilt app attributes id block rs after
  unfolding build
  build_lem app attributes id block rs after h =
      let (parent, e0, h0) = >>=-eq-some (Blocks.last d.blocks app.storage.block_memory) _ h in
      let (base_fee, e1, h1) =
        >>=-eq-some
          (base_fee_per_gas app.gas_fee parent.block.header.gas_limit parent.block.header.gas_used
            (unwrap_or parent.block.header.base_fee_per_gas 0))
          _ h0 in
      let ((outcome, rs', state), e2, h2) =
        >>=-eq-some
          (execute_transactions d app.state (candidates d app attributes) base_fee
            (execution_header d parent attributes) (hash_by_number d app))
          _ h1 in
      let e = some-injective _ _ h2 in
      let same : rs' ≡ rs = ap (λ t. t.1) e in
      record {
        parent = parent;
        base_fee = base_fee;
        outcome = outcome;
        state = state;
        parent_last = e0;
        priced = e1;
        ran = e2 ∙ ap (λ t. some (outcome, t, state)) same;
        made = sym (ap (λ t. t.0) e);
        stored =
            sym (ap (λ t. t.2) e)
            ∙ ap (λ t. store d app t.0 (block_transactions app attributes) t.1 state) e;
      }

  pub start_known :
      (app : Application d) (attributes : Payload) (id : PayloadId)
      → is_some (payload_by_id d.blocks d.transactions d.encode_2718 app.storage id) ≡ true
      → start_block_build d app attributes id ≡ some app
  unfolding start_block_build
  start_known app attributes id e = rw e

  start_fresh :
      (app : Application d) (attributes : Payload) (id : PayloadId)
      → is_some (payload_by_id d.blocks d.transactions d.encode_2718 app.storage id) ≡ false
      → start_block_build d app attributes id
        ≡ (build d app attributes id >>= λ result. some result.2)
  unfolding start_block_build
  start_fresh app attributes id e = rw e

  -- The payload is known already, or a block is built.
  pub start_block_build_lem :
      (app : Application d) (attributes : Payload) (id : PayloadId) (after : Application d)
      → start_block_build d app attributes id ≡ some after
      → ((after ≡ app)
          × (is_some (payload_by_id d.blocks d.transactions d.encode_2718 app.storage id) ≡ true))
        ⊎ ((block : ExtendedBlock) × (rs : List ExtendedReceipt) × (build d app attributes id
              ≡ some (block, rs, after)))
  start_block_build_lem app attributes id after h =
      elim (Bool-cases
        (is_some (payload_by_id d.blocks d.transactions d.encode_2718 app.storage id))) [
          | inl known ↦
              inl (some-injective _ _ (sym h ∙ start_known app attributes id known), known)
          | inr fresh ↦
              let ((block, rs, made), built, same) =
                >>=-eq-some (build d app attributes id) _
                  (sym (start_fresh app attributes id fresh) ∙ h) in
              inr (block, rs, built ∙ ap (λ t. some (block, rs, t)) (some-injective _ _ same))
        ]
