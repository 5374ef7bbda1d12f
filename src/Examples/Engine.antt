-- ===== src/Examples/Engine.antt =====
-- The properties of the engine API at concrete inputs.
use op_move.Base.{◌≡◌, refl, [], ◌∷◌, ◌↔◌, Bytes}
use op_move.Base.Same.{same_list}
use op_move.Transaction.Types.{OpTxEnvelope}
use op_move.Chain.Types.{ExtendedBlock, ExtendedTransaction}
use op_move.Chain.Blocks.{new, add, add_all, by_hash, by_payload_id}
use op_move.Chain.Responses.{SharedMemory, block_into_payload, payload_response}
use op_move.Api.{
  GetPayloadResponseV3, ExecutionPayloadV3, ApiResult, validate_payload, new_payload_v3,
  get_payload_v3, confirmed, refused, from_payload_response,
}
use op_move.Api.Payloads.{Agrees, validate_payload-Agrees, get_payload-new_payload}
use op_move.Examples.Maps.{table_map}
use op_move.Examples.Outside.{genesis}
use op_move.Examples.Stores.{child}

abbrev chain : SharedMemory (table_map ExtendedBlock) (table_map ExtendedTransaction)
chain = record {
  block_memory =
      add_all (table_map ExtendedBlock) (new (table_map ExtendedBlock)) (genesis ∷ child ∷ []);
  transaction_memory = record { transactions = (table_map ExtendedTransaction).empty };
}

abbrev encode_empty : OpTxEnvelope → Bytes
encode_empty tx = []

unfoldable known : GetPayloadResponseV3
known = from_payload_response (
    block_into_payload (table_map ExtendedBlock) (table_map ExtendedTransaction) encode_empty chain
      child)

-- A withdrawal that the node does not know.
unfoldable with_withdrawal : ExecutionPayloadV3
unfolding known
with_withdrawal = record known.execution_payload {
  withdrawals = record { index = 0; validator_index = 1; recipient = 2; amount = 3 } ∷ [];
}

refuses_withdrawal :
    validate_payload with_withdrawal [] known.parent_beacon_block_root known
    ≡ refused "Incorrect withdraws"
unfolding validate_payload with_withdrawal known from_payload_response block_into_payload same_list
    payload_response
refuses_withdrawal = refl

validate_payload-Agrees_example :
    (validate_payload with_withdrawal [] 0 known ≡ confirmed with_withdrawal.block_hash)
    ↔ Agrees with_withdrawal [] 0 known
validate_payload-Agrees_example = validate_payload-Agrees with_withdrawal [] 0 known

get_payload-new_payload_example :
    (r : GetPayloadResponseV3) × ((get_payload_v3
          (table_map ExtendedBlock)
          (table_map ExtendedTransaction)
          encode_empty
          chain
          7
        ≡ ApiResult.ok r)
      × (new_payload_v3
            (table_map ExtendedBlock)
            (table_map ExtendedTransaction)
            encode_empty
            chain
            r.execution_payload
            []
            r.parent_beacon_block_root
          ≡ confirmed child.hash))
unfolding by_hash by_payload_id add_all add
get_payload-new_payload_example =
    get_payload-new_payload (table_map ExtendedBlock) (table_map ExtendedTransaction) encode_empty
      chain 7 child refl refl
