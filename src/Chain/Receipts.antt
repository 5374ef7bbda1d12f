-- ===== src/Chain/Receipts.antt =====
-- blockchain/src/receipt/in_memory.rs: the memory of receipts, and the RPC form of a receipt
-- (receipt/read.rs with `with_rpc_logs` of shared/src/primitives.rs).
pub mod Seen
pub mod Rpc
pub mod Indices
use op_move.Base.{ℕ, Bool, Option, none, some, List, [], ◌∷◌, B256, is_some}
use op_move.Chain.Types.{ExtendedReceipt}
use op_move.Chain.EvMap.{EvMap}

pub record ReceiptMemory (m : EvMap ExtendedReceipt) : Type 0 where
  pub receipts : m.Handle

module _ (m : EvMap ExtendedReceipt) where
  -- `evmap::WriteHandle::extend`: the insertions in order.
  unfoldable pub insert_all : m.Handle → List ExtendedReceipt → m.Handle
  insert_all h [] = h
  insert_all h (r ∷ rs) = insert_all (m.insert r.transaction_hash r h) rs

  unfoldable pub extend : ReceiptMemory m → List ExtendedReceipt → ReceiptMemory m
  unfolding insert_all
  extend mem receipts = record { receipts = m.refresh (insert_all mem.receipts receipts) }

  -- `contains_key` on the readers' side.
  unfoldable pub contains : ReceiptMemory m → B256 → Bool
  contains mem transaction_hash = is_some (m.get_one mem.receipts transaction_hash)

  unfoldable pub by_transaction_hash : ReceiptMemory m → B256 → Option ExtendedReceipt
  by_transaction_hash mem transaction_hash = m.get_one mem.receipts transaction_hash
