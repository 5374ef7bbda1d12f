-- ===== src/Transaction/Receipt.antt =====
-- `WrapReceipt` of execution/src/transaction.rs, and `with_rpc_logs` of shared/src/primitives.rs. The
-- source has `unreachable!` for an EIP-7702 transaction and its receipt, which is `none` here.
use mathlib.Core.Option.{some-injective}
use op_move.Base.{ap, sym, ◌≡◌, ℕ, Option, none, some}
use op_move.Transaction.Types.{OpTxEnvelope, Receipt, ReceiptWithBloom, OpReceiptEnvelope}

abbrev pub deposit_receipt_version : ℕ
deposit_receipt_version = 1

abbrev with_bloom : Receipt → ℕ → ReceiptWithBloom
with_bloom receipt bloom = record { receipt = receipt; logs_bloom = bloom }

-- A deposit has no nonce of its own: `TxDeposit::nonce` is 0.
unfoldable pub wrap_receipt : OpTxEnvelope → Receipt → ℕ → Option OpReceiptEnvelope
wrap_receipt (OpTxEnvelope.legacy tx) receipt bloom =
    some (OpReceiptEnvelope.legacy (with_bloom receipt bloom))
wrap_receipt (OpTxEnvelope.eip1559 tx) receipt bloom =
    some (OpReceiptEnvelope.eip1559 (with_bloom receipt bloom))
wrap_receipt (OpTxEnvelope.eip2930 tx) receipt bloom =
    some (OpReceiptEnvelope.eip2930 (with_bloom receipt bloom))
wrap_receipt (OpTxEnvelope.deposit dep) receipt bloom = some (
    OpReceiptEnvelope.deposit (record {
      receipt = receipt;
      deposit_nonce = some 0;
      deposit_receipt_version = some deposit_receipt_version;
      logs_bloom = bloom;
    }))
wrap_receipt (OpTxEnvelope.eip7702 tx) receipt bloom = none

-- The receipt inside an envelope: `OpReceiptEnvelope::as_receipt`.
abbrev pub as_receipt : OpReceiptEnvelope → Receipt
as_receipt (OpReceiptEnvelope.legacy r) = r.receipt
as_receipt (OpReceiptEnvelope.eip2930 r) = r.receipt
as_receipt (OpReceiptEnvelope.eip1559 r) = r.receipt
as_receipt (OpReceiptEnvelope.eip7702 r) = r.receipt
as_receipt (OpReceiptEnvelope.deposit r) = r.receipt

-- Wrapping keeps the receipt.
pub as_receipt-wrap_receipt :
    (tx : OpTxEnvelope) (receipt : Receipt) (bloom : ℕ) (e : OpReceiptEnvelope)
    → wrap_receipt tx receipt bloom ≡ some e
    → as_receipt e ≡ receipt
unfolding wrap_receipt
as_receipt-wrap_receipt (OpTxEnvelope.legacy tx) receipt bloom e h =
    ap as_receipt (sym (some-injective _ _ h))
as_receipt-wrap_receipt (OpTxEnvelope.eip1559 tx) receipt bloom e h =
    ap as_receipt (sym (some-injective _ _ h))
as_receipt-wrap_receipt (OpTxEnvelope.eip2930 tx) receipt bloom e h =
    ap as_receipt (sym (some-injective _ _ h))
as_receipt-wrap_receipt (OpTxEnvelope.deposit tx) receipt bloom e h =
    ap as_receipt (sym (some-injective _ _ h))
as_receipt-wrap_receipt (OpTxEnvelope.eip7702 tx) receipt bloom e h = cc
