-- ===== src/Api.antt =====
-- api/src/methods/new_payload.rs and get_payload.rs: `engine_newPayloadV3` and `engine_getPayloadV3`
-- over the queries of the reader, with the types of api/src/schema/engine.rs and jsonrpc.rs that they
-- use. The JSON of an identifier is the identifier.
pub mod Checks
pub mod MethodName
pub mod Payloads
use Prim.Native.String.{String}
use op_move.Base.{
  ℕ, Bool, true, ◌&&◌, false, not, List, [], ◌∷◌, Option, none, some, Address, B256, Bytes,
  PayloadId, ◌==◌, if◌then◌else◌,
}
use op_move.Base.Same.{same_list}
use op_move.Transaction.Types.{OpTxEnvelope}
use op_move.Transaction.Parse.{is_empty}
use op_move.Chain.Types.{ExtendedBlock, ExtendedTransaction}
use op_move.Chain.EvMap.{EvMap}
use op_move.Chain.Responses
use op_move.Chain.Responses.{SharedMemory, ExecutionPayload, PayloadResponse}

pub record WithdrawalV1 : Type 0 where
  pub index : ℕ
  pub validator_index : ℕ
  pub recipient : Address
  pub amount : ℕ

-- `PartialEq` of the withdrawals and of lists.
unfoldable pub same_withdrawal : WithdrawalV1 → WithdrawalV1 → Bool
same_withdrawal v w =
    (v.index == w.index)
    && ((v.validator_index == w.validator_index)
        && ((v.recipient == w.recipient) && (v.amount == w.amount)))

pub record ExecutionPayloadV3 : Type 0 where
  pub parent_hash : B256
  pub fee_recipient : Address
  pub state_root : B256
  pub receipts_root : B256
  pub logs_bloom : ℕ
  pub prev_randao : B256
  pub block_number : ℕ
  pub gas_limit : ℕ
  pub gas_used : ℕ
  pub timestamp : ℕ
  pub extra_data : Bytes
  pub base_fee_per_gas : ℕ
  pub block_hash : B256
  pub transactions : List Bytes
  pub withdrawals : List WithdrawalV1
  pub blob_gas_used : ℕ
  pub excess_blob_gas : ℕ

-- The bundle of blobs, always empty, and the flag of the builder, always false, are not listed.
pub record GetPayloadResponseV3 : Type 0 where
  pub execution_payload : ExecutionPayloadV3
  pub block_value : ℕ
  pub parent_beacon_block_root : B256

-- A payload of the node has no withdrawals.
unfoldable pub from_execution_payload : ExecutionPayload → ExecutionPayloadV3
from_execution_payload p = record {
  parent_hash = p.parent_hash;
  fee_recipient = p.fee_recipient;
  state_root = p.state_root;
  receipts_root = p.receipts_root;
  logs_bloom = p.logs_bloom;
  prev_randao = p.prev_randao;
  block_number = p.block_number;
  gas_limit = p.gas_limit;
  gas_used = p.gas_used;
  timestamp = p.timestamp;
  extra_data = p.extra_data;
  base_fee_per_gas = p.base_fee_per_gas;
  block_hash = p.block_hash;
  transactions = p.transactions;
  withdrawals = [];
  blob_gas_used = p.blob_gas_used;
  excess_blob_gas = p.excess_blob_gas;
}

unfoldable pub from_payload_response : PayloadResponse → GetPayloadResponseV3
unfolding from_execution_payload
from_payload_response r = record {
  execution_payload = from_execution_payload r.execution_payload;
  block_value = r.block_value;
  parent_beacon_block_root = r.parent_beacon_block_root;
}

pub data Status : Type 0 where
  valid invalid syncing accepted invalid_block_hash : Status

pub record PayloadStatusV1 : Type 0 where
  pub status : Status
  pub latest_valid_hash : Option B256
  pub validation_error : Option String

-- The code of an error, a signed number: `negsuc n` is `- (n + 1)`.
pub data ℤ : Type 0 where
  pos negsuc : ℕ → ℤ

pub record JsonRpcError : Type 0 where
  pub code : ℤ
  pub about : ℕ
  pub message : String

pub data ApiResult {ℓ} (A : Type ℓ) : Type ℓ where
  ok : A → ApiResult A
  err : JsonRpcError → ApiResult A

-- The status with the reason why a payload is not valid.
abbrev pub refused : String → ApiResult PayloadStatusV1
refused why =
    ApiResult.ok
      (record { status = Status.invalid; latest_valid_hash = none; validation_error = some why })

abbrev pub confirmed : B256 → ApiResult PayloadStatusV1
confirmed hash =
    ApiResult.ok
      (record { status = Status.valid; latest_valid_hash = some hash; validation_error = none })

unfoldable pub validate_payload :
    ExecutionPayloadV3 → List B256 → B256 → GetPayloadResponseV3 → ApiResult PayloadStatusV1
unfolding same_withdrawal same_list
validate_payload payload blob_hashes beacon_root known =
    let k = known.execution_payload in
    if not (payload.block_number == k.block_number)
    then refused "Incorrect block height"
    else if not (same_list ◌==◌ payload.extra_data k.extra_data)
    then refused "Incorrect extra data"
    else if not (payload.fee_recipient == k.fee_recipient)
    then refused "Incorrect fee recipient"
    else if not (payload.gas_limit == k.gas_limit)
    then refused "Incorrect gas limit"
    else if not (payload.parent_hash == k.parent_hash)
    then refused "Incorrect parent hash"
    else if not (payload.prev_randao == k.prev_randao)
    then refused "Incorrect prev randao"
    else if not (payload.timestamp == k.timestamp)
    then refused "Incorrect timestamp"
    else if not (same_list same_withdrawal payload.withdrawals k.withdrawals)
    then refused "Incorrect withdraws"
    else if not (is_empty blob_hashes)
    then refused "Unexpected blob hashes"
    else if not (beacon_root == known.parent_beacon_block_root)
    then refused "Incorrect parent beacon block root"
    else confirmed payload.block_hash

module _ (bm : EvMap ExtendedBlock) (tm : EvMap ExtendedTransaction)
    (encode_2718 : OpTxEnvelope → Bytes) where
  -- `new_payload::inner_execute_v3`.
  unfoldable pub new_payload_v3 :
      SharedMemory bm tm → ExecutionPayloadV3 → List B256 → B256 → ApiResult PayloadStatusV1
  unfolding validate_payload
  new_payload_v3 mem payload blob_hashes beacon_root =
      elim (Responses.payload_by_hash bm tm encode_2718 mem payload.block_hash) [
        | none ↦ ApiResult.err (record {
          code = ℤ.negsuc 0;
          about = payload.block_hash;
          message = "Unknown block hash";
        })
        | some response ↦
            validate_payload payload blob_hashes beacon_root (from_payload_response response)
      ]

  -- `get_payload::execute_v3` after the request is parsed.
  unfoldable pub get_payload_v3 : SharedMemory bm tm → PayloadId → ApiResult GetPayloadResponseV3
  get_payload_v3 mem payload_id = elim (Responses.payload_by_id bm tm encode_2718 mem payload_id) [
    | none ↦
        ApiResult.err
          (record { code = ℤ.negsuc 38000; about = payload_id; message = "Unknown payload" })
    | some response ↦ ApiResult.ok (from_payload_response response)
  ]
