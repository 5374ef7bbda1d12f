-- ===== src/Chain/Transactions.antt =====
-- blockchain/src/transaction/in_memory.rs: the memory of transactions by hash. The hash of an
-- envelope, `trie_hash`, is a parameter.
use op_move.Base.{Option, none, some, List, [], ◌∷◌, B256}
use op_move.Transaction.Types.{OpTxEnvelope}
use op_move.Chain.Types.{ExtendedTransaction}
use op_move.Chain.EvMap.{EvMap}

pub record TransactionMemory (m : EvMap ExtendedTransaction) : Type 0 where
  pub transactions : m.Handle

module _ (m : EvMap ExtendedTransaction) (trie_hash : OpTxEnvelope → B256) where
  -- `evmap::WriteHandle::extend`: the insertions in order.
  pub insert_all : m.Handle → List ExtendedTransaction → m.Handle
  insert_all h [] = h
  insert_all h (tx ∷ txs) = insert_all (m.insert (trie_hash tx.inner) tx h) txs

  unfoldable pub extend : TransactionMemory m → List ExtendedTransaction → TransactionMemory m
  unfolding insert_all
  extend mem tx = record { transactions = m.refresh (insert_all mem.transactions tx) }

module _ (m : EvMap ExtendedTransaction) where
  unfoldable pub by_hash : TransactionMemory m → B256 → Option ExtendedTransaction
  by_hash mem hash = m.get_one mem.transactions hash

  -- The transactions that are found, in the order of the hashes.
  unfoldable pub by_hashes : TransactionMemory m → List B256 → List ExtendedTransaction
  by_hashes mem [] = []
  by_hashes mem (hash ∷ hashes) =
      let rest = by_hashes mem hashes in
      elim (m.get_one mem.transactions hash) [ none ↦ rest | some tx ↦ tx ∷ rest ]
