-- ===== src/Api/Payloads.antt =====
-- The payloads that `engine_newPayloadV3` of api/src/methods/new_payload.rs accepts, and those that
-- `engine_getPayloadV3` of api/src/methods/get_payload.rs hands out.
use op_move.Base.{◌≡◌, refl, ◌∙◌, List, [], ◌↔◌, ◌==◌, ==_iff, some, Bytes, B256, PayloadId}
use op_move.Transaction.Types.{OpTxEnvelope}
use op_move.Chain.Types.{ExtendedBlock, ExtendedTransaction}
use op_move.Chain.EvMap.{EvMap}
use op_move.Chain.Blocks.{by_hash, by_payload_id}
use op_move.Chain.Responses.{
  SharedMemory, payload_by_hash, payload_by_id, block_into_payload, payload_response,
  execution_payload,
}
use op_move.Api.{
  ExecutionPayloadV3, GetPayloadResponseV3, validate_payload, new_payload_v3, get_payload_v3,
  from_payload_response, from_execution_payload, ApiResult, confirmed, same_withdrawal,
}
use op_move.Base.Same.{same_list_iff}
use op_move.Api.Checks.{passes_iff, same_withdrawal_iff, is_empty_iff, last_iff}

-- The fields that a payload must share with the known one of the same hash, in the order in which
-- they are compared.
pub Agrees : ExecutionPayloadV3 → List B256 → B256 → GetPayloadResponseV3 → Type 0
Agrees payload blob_hashes beacon_root known =
    let k = known.execution_payload in
    (payload.block_number ≡ k.block_number)
    × ((payload.extra_data ≡ k.extra_data)
        × ((payload.fee_recipient ≡ k.fee_recipient)
            × ((payload.gas_limit ≡ k.gas_limit)
                × ((payload.parent_hash ≡ k.parent_hash)
                    × ((payload.prev_randao ≡ k.prev_randao)
                        × ((payload.timestamp ≡ k.timestamp)
                            × ((payload.withdrawals ≡ k.withdrawals)
                                × ((blob_hashes ≡ [])
                                    × (beacon_root ≡ known.parent_beacon_block_root)))))))))

-- A payload is confirmed as valid exactly if it agrees with the known payload in block number, extra
-- data, fee recipient, gas limit, parent hash, randomness, timestamp and withdrawals, no blob hashes
-- are expected, and the parent beacon block root is the known one.
pub validate_payload-Agrees :
    (payload : ExecutionPayloadV3) (blob_hashes : List B256) (beacon_root : B256)
    (known : GetPayloadResponseV3)
    → (validate_payload payload blob_hashes beacon_root known ≡ confirmed payload.block_hash)
      ↔ Agrees payload blob_hashes beacon_root known
unfolding validate_payload Agrees
validate_payload-Agrees p blobs root known = passes_iff _ _ p.block_hash _ (==_iff _ _) (
    passes_iff _ _ p.block_hash _ (same_list_iff ◌==◌ ==_iff _ _) (
      passes_iff _ _ p.block_hash _ (==_iff _ _) (
        passes_iff _ _ p.block_hash _ (==_iff _ _) (
          passes_iff _ _ p.block_hash _ (==_iff _ _) (
            passes_iff _ _ p.block_hash _ (==_iff _ _) (
              passes_iff _ _ p.block_hash _ (==_iff _ _) (
                passes_iff _ _ p.block_hash _
                  (same_list_iff same_withdrawal same_withdrawal_iff _ _)
                  (passes_iff _ _ p.block_hash _ (is_empty_iff blobs)
                    (last_iff _ _ p.block_hash (==_iff _ _))))))))))

module _ (bm : EvMap ExtendedBlock) (tm : EvMap ExtendedTransaction)
    (encode_2718 : OpTxEnvelope → Bytes) where
  -- The response to a block that is found under its payload id.
  pub get_payload-found :
      (mem : SharedMemory bm tm) (id : PayloadId) (b : ExtendedBlock)
      → by_payload_id bm mem.block_memory id ≡ some b
      → get_payload_v3 bm tm encode_2718 mem id
        ≡ ApiResult.ok (from_payload_response (block_into_payload bm tm encode_2718 mem b))
  unfolding get_payload_v3 payload_by_id
  get_payload-found mem id b found = rw (found, get_payload_v3, payload_by_id)

  pub new_payload-found :
      (mem : SharedMemory bm tm) (payload : ExecutionPayloadV3) (blob_hashes : List B256)
      (beacon_root : B256) (b : ExtendedBlock)
      → by_hash bm mem.block_memory payload.block_hash ≡ some b
      → new_payload_v3 bm tm encode_2718 mem payload blob_hashes beacon_root
        ≡ validate_payload payload blob_hashes beacon_root
            (from_payload_response (block_into_payload bm tm encode_2718 mem b))
  unfolding new_payload_v3 payload_by_hash
  new_payload-found mem payload blob_hashes beacon_root b found =
      rw (found, new_payload_v3, payload_by_hash)

-- A block that the node finds under a payload id and under its own hash goes round: the response to
-- `engine_getPayloadV3` for that id, sent back by `engine_newPayloadV3` without blob hashes, is
-- confirmed as valid under the hash of the block.
pub get_payload-new_payload :
    (bm : EvMap ExtendedBlock) (tm : EvMap ExtendedTransaction) (encode_2718 : OpTxEnvelope → Bytes)
    (mem : SharedMemory bm tm) (id : PayloadId) (b : ExtendedBlock)
    → by_payload_id bm mem.block_memory id ≡ some b
    → by_hash bm mem.block_memory b.hash ≡ some b
    → (r : GetPayloadResponseV3) × ((get_payload_v3 bm tm encode_2718 mem id ≡ ApiResult.ok r)
        × (new_payload_v3 bm tm encode_2718 mem r.execution_payload [] r.parent_beacon_block_root
            ≡ confirmed b.hash))
unfolding block_into_payload payload_response execution_payload from_payload_response
    from_execution_payload Agrees
get_payload-new_payload bm tm encode_2718 mem id b by_id by_own_hash =
    let r = from_payload_response (block_into_payload bm tm encode_2718 mem b) in
    (
      r,
      (
        get_payload-found bm tm encode_2718 mem id b by_id,
        new_payload-found bm tm encode_2718 mem r.execution_payload [] r.parent_beacon_block_root b
              by_own_hash
            ∙ (validate_payload-Agrees r.execution_payload [] r.parent_beacon_block_root r).1
                (refl, (refl, (refl, (refl, (refl, (refl, (refl, (refl, (refl, refl))))))))),
      ),
    )
