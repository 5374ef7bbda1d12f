-- ===== src/Chain/Receipts/Seen.antt =====
-- Which transactions the memory of receipts has seen.
use op_move.Base.{ℕ, ◌≡◌, ◌∙◌, sym, Bool, true, false, ◌||◌, List, [], ◌∷◌, B256, arith, ◌==◌}
use op_move.Chain.Types.{ExtendedReceipt}
use op_move.Chain.EvMap.{EvMap, IsEvMap}
use op_move.Chain.Receipts.{ReceiptMemory, insert_all, extend, contains}

-- Some receipt of the list is that of the transaction.
abbrev pub has_receipt : B256 → List ExtendedReceipt → Bool
has_receipt k [] = false
has_receipt k (r ∷ rs) = (r.transaction_hash == k) || has_receipt k rs

abbrev not_empty {ℓ} : {A : Type ℓ} → List A → Bool
not_empty [] = false
not_empty (x ∷ xs) = true

module _ (m : EvMap ExtendedReceipt) (law : IsEvMap m) where
  insert_all-pending :
      (h : m.Handle) (rs : List ExtendedReceipt) (k : B256)
      → not_empty (m.pending (insert_all m h rs) k)
        ≡ (not_empty (m.pending h k) || has_receipt k rs)
  unfolding insert_all
  insert_all-pending h [] k = ground arith
  insert_all-pending h (r ∷ rs) k =
      insert_all-pending (m.insert r.transaction_hash r h) rs k
      ∙ rw (law.pending-insert r.transaction_hash r h k) (ground arith)

  contains_visible :
      (mem : ReceiptMemory m) (k : B256) (vs : List ExtendedReceipt)
      → m.visible mem.receipts k ≡ vs
      → contains m mem k ≡ not_empty vs
  unfolding contains
  contains_visible mem k [] e = rw (law.get_one-none mem.receipts k e)
  contains_visible mem k (v ∷ vs) e =
      let (w, got) = law.get_one-some mem.receipts k v vs e in rw got

  -- Nothing waits for a refresh.
  pub record IsRefreshed (mem : ReceiptMemory m) : Type 0 where
    pub same : (k : ℕ) → m.visible mem.receipts k ≡ m.pending mem.receipts k

  pub extend-IsRefreshed :
      (mem : ReceiptMemory m) (rs : List ExtendedReceipt) → IsRefreshed (extend m mem rs)
  unfolding extend
  extend-IsRefreshed mem rs = record {
    same = λ k.
        law.visible-refresh (insert_all m mem.receipts rs) k
        ∙ sym (law.pending-refresh (insert_all m mem.receipts rs) k);
  }

  extend-visible :
      (mem : ReceiptMemory m) (rs : List ExtendedReceipt) (k : B256)
      → m.visible (extend m mem rs).receipts k ≡ m.pending (insert_all m mem.receipts rs) k
  unfolding extend
  extend-visible mem rs k = law.visible-refresh _ k

  contains-IsRefreshed :
      (mem : ReceiptMemory m) (k : B256)
      → IsRefreshed mem
      → contains m mem k ≡ not_empty (m.pending mem.receipts k)
  contains-IsRefreshed mem k i = contains_visible mem k _ (i.same k)

  -- After an extension a transaction has been seen exactly if it had been, or its receipt is one of
  -- the new ones; no receipt is ever lost.
  pub contains-extend :
      (mem : ReceiptMemory m) (rs : List ExtendedReceipt) (k : B256)
      → IsRefreshed mem
      → contains m (extend m mem rs) k ≡ (contains m mem k || has_receipt k rs)
  contains-extend mem rs k i = rw (contains-IsRefreshed mem k i) (
      contains_visible (extend m mem rs) k _ (extend-visible mem rs k)
      ∙ insert_all-pending mem.receipts rs k)
