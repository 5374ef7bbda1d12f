-- ===== src/Chain/Receipts/Indices.antt =====
-- The numbering of logs in RPC receipts.
use op_move.Base.{
  ℕ, zero, suc, ◌+◌, ◌≡◌, refl, ap, ◌∙◌, sym, List, [], ◌∷◌, ◌++◌, map, some, arith, length,
}
use op_move.Base.Partial.{◌>>=◌, >>=-eq-some}
use mathlib.Core.Option.{some-injective}
use native.Mathlib.Nat.{add-suc, zero-add, add-zero, suc-add}
use op_move.Transaction.Types.{Log, OpReceiptEnvelope}
use op_move.Transaction.Receipt.{as_receipt}
use op_move.Chain.Types.{ExtendedReceipt}
use op_move.Chain.Receipts.Rpc.{
  RpcLog, RpcReceipt, with_rpc_logs, TransactionReceipt, rpc_logs_from, rpc_receipt, with_inner,
}

-- `start`, `start + 1` and so on, `n` numbers in all.
pub range_from : ℕ → ℕ → List ℕ
range_from start zero = []
range_from start (suc n) = start ∷ range_from (suc start) n

pub range_from-add :
    (start n k : ℕ) → range_from start n ++ range_from (start + n) k ≡ range_from start (n + k)
unfolding range_from
range_from-add start zero k = rw (zero-add, add-zero)
range_from-add start (suc n) k =
    rw (suc-add n k, add-suc start n, ← suc-add start n)
      (ap (λ t. start ∷ t) (range_from-add (suc start) n k))

log_indices :
    (rx : ExtendedReceipt) (i : ℕ) (logs : List Log)
    → map (λ l. l.log_index) (rpc_logs_from rx i logs)
      ≡ range_from (rx.logs_offset + i) (length logs)
unfolding rpc_logs_from range_from
log_indices rx i [] = refl
log_indices rx i (log ∷ logs) =
    ap (λ t. (rx.logs_offset + i) ∷ t)
      (rw (← add-suc rx.logs_offset i) (log_indices rx (suc i) logs))

log_inners :
    (rx : ExtendedReceipt) (i : ℕ) (logs : List Log)
    → map (λ l. l.inner) (rpc_logs_from rx i logs) ≡ logs
unfolding rpc_logs_from
log_inners rx i [] = refl
log_inners rx i (log ∷ logs) = ap (λ t. log ∷ t) (log_inners rx (suc i) logs)

with_rpc_logs-logs :
    (e : OpReceiptEnvelope) (logs : List RpcLog) (r : RpcReceipt)
    → with_rpc_logs e logs ≡ some r
    → r.logs ≡ logs
unfolding with_rpc_logs
with_rpc_logs-logs (OpReceiptEnvelope.legacy x) logs r h = ground arith
with_rpc_logs-logs (OpReceiptEnvelope.eip2930 x) logs r h = ground arith
with_rpc_logs-logs (OpReceiptEnvelope.eip1559 x) logs r h = ground arith
with_rpc_logs-logs (OpReceiptEnvelope.eip7702 x) logs r h = cc
with_rpc_logs-logs (OpReceiptEnvelope.deposit x) logs r h = ground arith

rpc_receipt_lem :
    (rx : ExtendedReceipt)
    → rpc_receipt rx ≡ (
        with_rpc_logs rx.receipt (rpc_logs_from rx 0 (as_receipt rx.receipt).logs) >>= λ r.
        some (with_inner rx r))
unfolding rpc_receipt
rpc_receipt_lem rx = refl

-- The logs of an RPC receipt are those of the receipt, numbered from the offset of its transaction.
pub rpc_receipt-logs :
    (rx : ExtendedReceipt) (t : TransactionReceipt)
    → rpc_receipt rx ≡ some t
    → (map (λ l. l.inner) t.inner.logs ≡ (as_receipt rx.receipt).logs)
      × (map (λ l. l.log_index) t.inner.logs
          ≡ range_from rx.logs_offset (length (as_receipt rx.receipt).logs))
unfolding with_inner
rpc_receipt-logs rx t h =
    let (r, made, e) = >>=-eq-some _ (λ r. some (with_inner rx r)) (sym (rpc_receipt_lem rx) ∙ h) in
    let same : t.inner.logs ≡ rpc_logs_from rx 0 (as_receipt rx.receipt).logs =
      ap (λ u. u.inner.logs) (sym (some-injective _ _ e))
      ∙ with_rpc_logs-logs rx.receipt _ r made in
    rw same (
      log_inners rx 0 _,
      log_indices rx 0 _
          ∙ ap (λ n. range_from n (length (as_receipt rx.receipt).logs)) (add-zero rx.logs_offset),
    )
