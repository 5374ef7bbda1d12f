-- ===== src/Transaction/Normalize.antt =====
-- execution/src/transaction.rs: from an envelope to the normalised transaction. The signer's
-- recovery from a signature is a parameter; it fails on an invalid signature.
use op_move.Base.{ℕ, List, [], Option, none, some, Address, unwrap_or}
use op_move.Base.U256.{u64_max}
use op_move.Primitives.{to_saturated_u64}
use op_move.Error.{
  Error, Result, ok, err, user, invalid_transaction, invalid_signature, unsupported_type, ◌>>=◌,
  ok_or,
}
use op_move.Transaction.Types.{
  TxKind, AccessList, TxLegacy, TxEip2930, TxEip1559, Signed, OpTxEnvelope,
  NormalizedEthTransaction, NormalizedExtendedTxEnvelope, canonical, deposited_tx,
}

-- `recover_signer` of the three signed envelopes.
pub record Signatures : Type 0 where
  pub legacy : Signed TxLegacy → Option Address
  pub eip2930 : Signed TxEip2930 → Option Address
  pub eip1559 : Signed TxEip1559 → Option Address

-- `SignatureError` carries nothing that the program reads.
abbrev pub signature_error : Error
signature_error = user (invalid_signature 0)

-- `NormalizedEthTransaction::gas_limit`: the one limb, or the largest 64-bit value.
unfoldable pub gas_limit : NormalizedEthTransaction → ℕ
unfolding to_saturated_u64
gas_limit tx = to_saturated_u64 tx.gas_limit

module _ (recover : Signatures) where
  unfoldable pub normalize_eip1559 : Signed TxEip1559 → Result NormalizedEthTransaction
  normalize_eip1559 value = do
    address ← ok_or (recover.eip1559 value) signature_error
    ok (record {
      signer = address;
      to = value.tx.to;
      nonce = value.tx.nonce;
      value = value.tx.value;
      input = value.tx.input;
      chain_id = some value.tx.chain_id;
      gas_limit = value.tx.gas_limit;
      max_priority_fee_per_gas = value.tx.max_priority_fee_per_gas;
      max_fee_per_gas = value.tx.max_fee_per_gas;
      access_list = value.tx.access_list;
    })

  unfoldable pub normalize_eip2930 : Signed TxEip2930 → Result NormalizedEthTransaction
  normalize_eip2930 value = do
    address ← ok_or (recover.eip2930 value) signature_error
    ok (record {
      signer = address;
      to = value.tx.to;
      nonce = value.tx.nonce;
      value = value.tx.value;
      input = value.tx.input;
      chain_id = some value.tx.chain_id;
      gas_limit = value.tx.gas_limit;
      max_priority_fee_per_gas = value.tx.gas_price;
      max_fee_per_gas = value.tx.gas_price;
      access_list = value.tx.access_list;
    })

  unfoldable pub normalize_legacy : Signed TxLegacy → Result NormalizedEthTransaction
  normalize_legacy value = do
    address ← ok_or (recover.legacy value) signature_error
    ok (record {
      signer = address;
      to = value.tx.to;
      nonce = value.tx.nonce;
      value = value.tx.value;
      input = value.tx.input;
      chain_id = value.tx.chain_id;
      gas_limit = value.tx.gas_limit;
      max_priority_fee_per_gas = value.tx.gas_price;
      max_fee_per_gas = value.tx.gas_price;
      access_list = [];
    })

  -- `TryFrom<OpTxEnvelope> for NormalizedExtendedTxEnvelope`.
  unfoldable pub normalize : OpTxEnvelope → Result NormalizedExtendedTxEnvelope
  unfolding normalize_eip1559 normalize_eip2930 normalize_legacy
  normalize (OpTxEnvelope.eip1559 tx) = do tx' ← normalize_eip1559 tx; ok (canonical tx')
  normalize (OpTxEnvelope.eip2930 tx) = do tx' ← normalize_eip2930 tx; ok (canonical tx')
  normalize (OpTxEnvelope.legacy tx) = do tx' ← normalize_legacy tx; ok (canonical tx')
  normalize (OpTxEnvelope.deposit tx) = ok (deposited_tx tx)
  normalize (OpTxEnvelope.eip7702 tx) = err (invalid_transaction unsupported_type)

-- `NormalizedExtendedTxEnvelope::into_canonical`.
unfoldable pub into_canonical : NormalizedExtendedTxEnvelope → Option NormalizedEthTransaction
into_canonical (canonical tx) = some tx
into_canonical (deposited_tx tx) = none

-- `TransactionRequest` of an `eth_call` or `eth_estimateGas`; every field may be missing.
pub record TransactionRequest : Type 0 where
  pub from : Option Address
  pub to : Option TxKind
  pub nonce : Option ℕ
  pub value : Option ℕ
  pub chain_id : Option ℕ
  pub gas : Option ℕ
  pub max_priority_fee_per_gas : Option ℕ
  pub max_fee_per_gas : Option ℕ
  pub input : Option (List ℕ)
  pub access_list : Option AccessList

-- `From<TransactionRequest> for NormalizedEthTransaction`; a missing `to` is a creation.
unfoldable pub from_request : TransactionRequest → NormalizedEthTransaction
from_request value = record {
  signer = unwrap_or value.from 0;
  to = unwrap_or value.to TxKind.create;
  nonce = unwrap_or value.nonce 0;
  value = unwrap_or value.value 0;
  input = unwrap_or value.input [];
  chain_id = value.chain_id;
  gas_limit = unwrap_or value.gas u64_max;
  max_priority_fee_per_gas = unwrap_or value.max_priority_fee_per_gas 0;
  max_fee_per_gas = unwrap_or value.max_fee_per_gas 0;
  access_list = unwrap_or value.access_list [];
}
