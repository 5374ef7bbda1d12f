-- ===== src/Api/MethodName.antt =====
-- api/src/method_name.rs: the methods of the JSON-RPC interface by their names.
use Prim.Native.String.{String}
use op_move.Base.{◌≡◌, refl, Bool, true, false, not, Option, none, some, if◌then◌else◌}
use op_move.Base.Texts.{same_text}

pub data MethodName : Type 0 where
  fork_choice_updated_v3 get_payload_v3 new_payload_v3 send_raw_transaction chain_id get_balance
        get_block_by_hash get_block_by_number get_transaction_by_hash get_nonce block_number
        fee_history estimate_gas call transaction_receipt get_proof gas_price :
      MethodName

unfoldable pub is_engine_api : MethodName → Bool
is_engine_api MethodName.fork_choice_updated_v3 = true
is_engine_api MethodName.get_payload_v3 = true
is_engine_api MethodName.new_payload_v3 = true
is_engine_api _ = false

unfoldable pub is_non_engine_api : MethodName → Bool
unfolding is_engine_api
is_non_engine_api method = not (is_engine_api method)

-- `FromStr`; no method stands for the error -32601 on any other name.
unfoldable pub from_str : String → Option MethodName
from_str s =
    if same_text s "engine_forkchoiceUpdatedV3"
    then some MethodName.fork_choice_updated_v3
    else if same_text s "engine_getPayloadV3"
    then some MethodName.get_payload_v3
    else if same_text s "engine_newPayloadV3"
    then some MethodName.new_payload_v3
    else if same_text s "eth_chainId"
    then some MethodName.chain_id
    else if same_text s "eth_getBalance"
    then some MethodName.get_balance
    else if same_text s "eth_getTransactionCount"
    then some MethodName.get_nonce
    else if same_text s "eth_getTransactionByHash"
    then some MethodName.get_transaction_by_hash
    else if same_text s "eth_getBlockByHash"
    then some MethodName.get_block_by_hash
    else if same_text s "eth_getBlockByNumber"
    then some MethodName.get_block_by_number
    else if same_text s "eth_feeHistory"
    then some MethodName.fee_history
    else if same_text s "eth_blockNumber"
    then some MethodName.block_number
    else if same_text s "eth_sendRawTransaction"
    then some MethodName.send_raw_transaction
    else if same_text s "eth_estimateGas"
    then some MethodName.estimate_gas
    else if same_text s "eth_call"
    then some MethodName.call
    else if same_text s "eth_getTransactionReceipt"
    then some MethodName.transaction_receipt
    else if same_text s "eth_getProof"
    then some MethodName.get_proof
    else if same_text s "eth_gasPrice"
    then some MethodName.gas_price
    else none

-- The name of a method.
abbrev name : MethodName → String
name MethodName.fork_choice_updated_v3 = "engine_forkchoiceUpdatedV3"
name MethodName.get_payload_v3 = "engine_getPayloadV3"
name MethodName.new_payload_v3 = "engine_newPayloadV3"
name MethodName.chain_id = "eth_chainId"
name MethodName.get_balance = "eth_getBalance"
name MethodName.get_nonce = "eth_getTransactionCount"
name MethodName.get_transaction_by_hash = "eth_getTransactionByHash"
name MethodName.get_block_by_hash = "eth_getBlockByHash"
name MethodName.get_block_by_number = "eth_getBlockByNumber"
name MethodName.fee_history = "eth_feeHistory"
name MethodName.block_number = "eth_blockNumber"
name MethodName.send_raw_transaction = "eth_sendRawTransaction"
name MethodName.estimate_gas = "eth_estimateGas"
name MethodName.call = "eth_call"
name MethodName.transaction_receipt = "eth_getTransactionReceipt"
name MethodName.get_proof = "eth_getProof"
name MethodName.gas_price = "eth_gasPrice"

-- Every method is reached by its name.
from_str-name : (m : MethodName) → from_str (name m) ≡ some m
unfolding from_str
from_str-name MethodName.fork_choice_updated_v3 = refl
from_str-name MethodName.get_payload_v3 = refl
from_str-name MethodName.new_payload_v3 = refl
from_str-name MethodName.chain_id = refl
from_str-name MethodName.get_balance = refl
from_str-name MethodName.get_nonce = refl
from_str-name MethodName.get_transaction_by_hash = refl
from_str-name MethodName.get_block_by_hash = refl
from_str-name MethodName.get_block_by_number = refl
from_str-name MethodName.fee_history = refl
from_str-name MethodName.block_number = refl
from_str-name MethodName.send_raw_transaction = refl
from_str-name MethodName.estimate_gas = refl
from_str-name MethodName.call = refl
from_str-name MethodName.transaction_receipt = refl
from_str-name MethodName.get_proof = refl
from_str-name MethodName.gas_price = refl
