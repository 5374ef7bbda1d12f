-- ===== src/Chain/Receipts/Rpc.antt =====
-- receipt/read.rs: the RPC receipt, whose logs are numbered within the block. `none` stands for the
-- `unreachable!` on a receipt of an EIP-7702 transaction.
use op_move.Base.Partial.{◌>>=◌}
use op_move.Base.{ℕ, suc, ◌+◌, Bool, Option, none, some, List, [], ◌∷◌, Address, B256, unwrap_or}
use op_move.Base.U256.{saturating_to_u128}
use op_move.Transaction.Types.{Log, OpReceiptEnvelope}
use op_move.Transaction.Receipt.{as_receipt}
use op_move.Gas.{L1BlockInfo}
use op_move.Chain.Types.{ExtendedReceipt}

-- `alloy::rpc::types::Log`; no log is ever removed.
pub record RpcLog : Type 0 where
  pub inner : Log
  pub block_hash : B256
  pub block_number : ℕ
  pub block_timestamp : ℕ
  pub transaction_hash : B256
  pub transaction_index : ℕ
  pub log_index : ℕ

-- The kinds of `OpReceiptEnvelope` over RPC logs.
pub data RpcReceiptKind : Type 0 where
  legacy eip2930 eip1559 : RpcReceiptKind
  deposit : Option ℕ → Option ℕ → RpcReceiptKind

pub record RpcReceipt : Type 0 where
  pub kind : RpcReceiptKind
  pub status : Bool
  pub cumulative_gas_used : ℕ
  pub logs : List RpcLog
  pub logs_bloom : ℕ

pub record TransactionReceipt : Type 0 where
  pub inner : RpcReceipt
  pub transaction_hash : B256
  pub transaction_index : ℕ
  pub block_hash : B256
  pub block_number : ℕ
  pub gas_used : ℕ
  pub effective_gas_price : ℕ
  pub from : Address
  pub to : Option Address
  pub contract_address : Option Address
  pub l1_block_info : L1BlockInfo

-- `logs().iter().enumerate().map(...)`, from index `i` on.
unfoldable pub rpc_logs_from : ExtendedReceipt → ℕ → List Log → List RpcLog
rpc_logs_from rx i [] = []
rpc_logs_from rx i (log ∷ logs) =
    record {
      inner = log;
      block_hash = rx.block_hash;
      block_number = rx.block_number;
      block_timestamp = rx.block_timestamp;
      transaction_hash = rx.transaction_hash;
      transaction_index = rx.transaction_index;
      log_index = rx.logs_offset + i;
    }
    ∷ rpc_logs_from rx (suc i) logs

-- `with_rpc_logs`: the receipt with its logs replaced.
unfoldable pub with_rpc_logs : OpReceiptEnvelope → List RpcLog → Option RpcReceipt
with_rpc_logs (OpReceiptEnvelope.legacy r) logs = some (record {
  kind = legacy;
  status = r.receipt.status;
  cumulative_gas_used = r.receipt.cumulative_gas_used;
  logs = logs;
  logs_bloom = r.logs_bloom;
})
with_rpc_logs (OpReceiptEnvelope.eip2930 r) logs = some (record {
  kind = eip2930;
  status = r.receipt.status;
  cumulative_gas_used = r.receipt.cumulative_gas_used;
  logs = logs;
  logs_bloom = r.logs_bloom;
})
with_rpc_logs (OpReceiptEnvelope.eip1559 r) logs = some (record {
  kind = eip1559;
  status = r.receipt.status;
  cumulative_gas_used = r.receipt.cumulative_gas_used;
  logs = logs;
  logs_bloom = r.logs_bloom;
})
with_rpc_logs (OpReceiptEnvelope.deposit r) logs = some (record {
  kind = deposit r.deposit_nonce r.deposit_receipt_version;
  status = r.receipt.status;
  cumulative_gas_used = r.receipt.cumulative_gas_used;
  logs = logs;
  logs_bloom = r.logs_bloom;
})
with_rpc_logs (OpReceiptEnvelope.eip7702 r) logs = none

abbrev pub no_l1_block_info : L1BlockInfo
no_l1_block_info = record {
  l1_gas_price = none;
  l1_fee = none;
  l1_base_fee_scalar = none;
  l1_blob_base_fee = none;
  l1_blob_base_fee_scalar = none;
}

-- The response around the receipt with its logs.
unfoldable pub with_inner : ExtendedReceipt → RpcReceipt → TransactionReceipt
with_inner rx receipt = record {
  inner = receipt;
  transaction_hash = rx.transaction_hash;
  transaction_index = rx.transaction_index;
  block_hash = rx.block_hash;
  block_number = rx.block_number;
  gas_used = rx.gas_used;
  effective_gas_price = saturating_to_u128 rx.l2_gas_price;
  from = rx.from;
  to = rx.to;
  contract_address = rx.contract_address;
  l1_block_info = unwrap_or rx.l1_block_info no_l1_block_info;
}

-- `From<ExtendedReceipt> for TransactionReceipt`.
unfoldable pub rpc_receipt : ExtendedReceipt → Option TransactionReceipt
unfolding rpc_logs_from with_rpc_logs with_inner
rpc_receipt rx = do
  receipt ← with_rpc_logs rx.receipt (rpc_logs_from rx 0 (as_receipt rx.receipt).logs)
  some (with_inner rx receipt)
