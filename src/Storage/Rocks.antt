-- ===== src/Storage/Rocks.antt =====
-- storage/rocksdb/src: the repositories and queries over RocksDB, one column family for each kind of
-- value. Blocks are found by hash, and by height through their hash.
pub mod Blocks
pub mod Memory
pub mod Receipts
pub mod Tries
use op_move.Base.{
  ℕ, zero, suc, ◌+◌, Bool, true, false, List, [], ◌∷◌, ◌++◌, Option, none, some, B256, Bytes,
  Address, PayloadId, map, is_some, if◌then◌else◌,
}
use op_move.Storage.Keys.{to_be_bytes, u64_key, hash_key, from_be_bytes}
use op_move.Storage.Db.{
  DbResult, ok, err, panicked, ◌>>=◌, expect, ColumnFamily, Put, RocksDb, Serde,
}
use op_move.Transaction.Types.{OpTxEnvelope}
use op_move.Chain.Types.{ExtendedBlock, ExtendedTransaction, ExtendedReceipt, transaction_hashes}
use op_move.Chain.Responses.{
  BlockResponse, from_block_with_transactions, from_block_with_transaction_hashes, PayloadResponse,
  payload_response,
}

-- `FromValue`, which panics on bytes that do not read.
abbrev pub from_value : {A : Type 0} → Serde A → Bytes → DbResult A
from_value s bytes = expect (s.from_slice bytes)

-- `Option::map` with a conversion that may fail, and the `transpose` after it.
abbrev pub on_some : {A B : Type 0} → (A → DbResult B) → Option A → DbResult (Option B)
on_some f none = ok none
on_some f (some a) = do b ← f a; ok (some b)

abbrev pub and_then : {A B : Type 0} → (A → DbResult (Option B)) → Option A → DbResult (Option B)
and_then f none = ok none
and_then f (some a) = f a

-- `B256::new(bytes.try_into().unwrap())` and `u64::from_key`.
unfoldable pub hash_of : Bytes → DbResult B256
unfolding from_be_bytes
hash_of bytes = expect (from_be_bytes 32 bytes)

unfoldable pub u64_of : Bytes → DbResult ℕ
unfolding from_be_bytes
u64_of bytes = expect (from_be_bytes 8 bytes)

abbrev pub prepend : {A : Type 0} → Option A → List A → List A
prepend none rest = rest
prepend (some a) rest = a ∷ rest

module _ (r : RocksDb) (blocks : Serde ExtendedBlock) where
  -- `RocksDbBlockRepository::add`: both entries in one batch.
  unfoldable pub add : r.Handle → ExtendedBlock → DbResult r.Handle
  unfolding hash_key u64_key
  add db b = do
    value ← expect (blocks.to_vec b)
    r.write db (
        (record { family = ColumnFamily.block; key = hash_key b.hash; value = value })
        ∷ (record {
          family = ColumnFamily.height;
          key = u64_key b.block.header.number;
          value = hash_key b.hash;
        })
        ∷ [])

  unfoldable pub by_hash : r.Handle → B256 → DbResult (Option ExtendedBlock)
  unfolding hash_key
  by_hash db hash = do
    bytes ← r.get_cf db ColumnFamily.block (hash_key hash)
    on_some (from_value blocks) bytes

  -- `RocksDbBlockRepository::latest`: the block of the greatest height.
  unfoldable pub latest : r.Handle → DbResult (Option ExtendedBlock)
  unfolding by_hash hash_of
  latest db = do
    entry ← r.last db ColumnFamily.height
    and_then (λ e. (do hash ← hash_of e.1; by_hash db hash)) entry

  -- `RocksDbBlockQueries::latest`.
  unfoldable pub latest_height : r.Handle → DbResult (Option ℕ)
  unfolding u64_of
  latest_height db = do entry ← r.last db ColumnFamily.height; on_some (λ e. u64_of e.0) entry

  module _ (txs : Serde ExtendedTransaction) where
    -- The transactions that are found, in the order of the hashes.
    pub transactions : r.Handle → List B256 → DbResult (List ExtendedTransaction)
    transactions db [] = ok []
    transactions db (hash ∷ hashes) = do
      bytes ← r.get_cf db ColumnFamily.transaction (hash_key hash)
      tx ← on_some (from_value txs) bytes
      rest ← transactions db hashes
      ok (prepend tx rest)

    unfoldable pub response_of : r.Handle → Bool → ExtendedBlock → DbResult BlockResponse
    unfolding transactions from_block_with_transactions from_block_with_transaction_hashes
    response_of db include_transactions b =
        if include_transactions
        then (do
          found ← transactions db (transaction_hashes b)
          ok (from_block_with_transactions b found))
        else ok (from_block_with_transaction_hashes b)

    -- `RocksDbBlockQueries::by_hash` and `by_height`.
    unfoldable pub query_by_hash : r.Handle → B256 → Bool → DbResult (Option BlockResponse)
    unfolding by_hash response_of
    query_by_hash db hash include_transactions = do
      b ← by_hash db hash
      on_some (response_of db include_transactions) b

    unfoldable pub query_by_height : r.Handle → ℕ → Bool → DbResult (Option BlockResponse)
    unfolding query_by_hash hash_of u64_key
    query_by_height db height include_transactions = do
      bytes ← r.get_cf db ColumnFamily.height (u64_key height)
      and_then (λ v. (do hash ← hash_of v; query_by_hash db hash include_transactions)) bytes

    -- `RocksDbPayloadQueries`; a single put is a batch of one.
    unfoldable pub add_block_hash : r.Handle → PayloadId → B256 → DbResult r.Handle
    unfolding u64_key hash_key
    add_block_hash db id block_hash = r.write db (
        (record { family = ColumnFamily.payload; key = u64_key id; value = hash_key block_hash })
        ∷ [])

    module _ (encode_2718 : OpTxEnvelope → Bytes) where
      unfoldable pub payload_by_hash : r.Handle → B256 → DbResult (Option PayloadResponse)
      unfolding by_hash transactions payload_response
      payload_by_hash db hash = do
        b ← by_hash db hash
        on_some
            (λ b. (do
              found ← transactions db (transaction_hashes b)
              ok (payload_response encode_2718 b (map (λ tx. tx.inner) found))))
            b

      unfoldable pub payload_by_id : r.Handle → PayloadId → DbResult (Option PayloadResponse)
      unfolding payload_by_hash hash_of u64_key
      payload_by_id db id = do
        bytes ← r.get_cf db ColumnFamily.payload (u64_key id)
        and_then (λ v. (do hash ← hash_of v; payload_by_hash db hash)) bytes

module _ (r : RocksDb) where
  -- `fold` over a batch, and `RocksDbTransactionRepository::extend`.
  pub transaction_puts :
      Serde ExtendedTransaction
      → (OpTxEnvelope → B256)
      → List ExtendedTransaction
      → DbResult (List Put)
  transaction_puts s trie_hash [] = ok []
  transaction_puts s trie_hash (tx ∷ txs) = do
    value ← expect (s.to_vec tx)
    rest ← transaction_puts s trie_hash txs
    ok (
        (record {
          family = ColumnFamily.transaction;
          key = hash_key (trie_hash tx.inner);
          value = value;
        })
        ∷ rest)

  unfoldable pub extend_transactions :
      Serde ExtendedTransaction
      → (OpTxEnvelope → B256)
      → r.Handle
      → List ExtendedTransaction
      → DbResult r.Handle
  unfolding transaction_puts
  extend_transactions s trie_hash db txs = do
    batch ← transaction_puts s trie_hash txs
    r.write db batch

  unfoldable pub transaction_by_hash :
      Serde ExtendedTransaction → r.Handle → B256 → DbResult (Option ExtendedTransaction)
  unfolding hash_key
  transaction_by_hash s db hash = do
    bytes ← r.get_cf db ColumnFamily.transaction (hash_key hash)
    on_some (from_value s) bytes

  -- `RocksDbReceiptRepository` and `RocksDbReceiptQueries`, before the RPC form of the receipt.
  pub receipt_puts : Serde ExtendedReceipt → List ExtendedReceipt → DbResult (List Put)
  receipt_puts s [] = ok []
  receipt_puts s (receipt ∷ receipts) = do
    value ← expect (s.to_vec receipt)
    rest ← receipt_puts s receipts
    ok (
        (record {
          family = ColumnFamily.receipt;
          key = hash_key receipt.transaction_hash;
          value = value;
        })
        ∷ rest)

  unfoldable pub extend_receipts :
      Serde ExtendedReceipt → r.Handle → List ExtendedReceipt → DbResult r.Handle
  unfolding receipt_puts
  extend_receipts s db receipts = do batch ← receipt_puts s receipts; r.write db batch

  unfoldable pub contains : r.Handle → B256 → DbResult Bool
  unfolding hash_key
  contains db transaction_hash = do
    bytes ← r.get_cf db ColumnFamily.receipt (hash_key transaction_hash)
    ok (is_some bytes)

  unfoldable pub by_transaction_hash :
      Serde ExtendedReceipt → r.Handle → B256 → DbResult (Option ExtendedReceipt)
  unfolding hash_key
  by_transaction_hash s db transaction_hash = do
    bytes ← r.get_cf db ColumnFamily.receipt (hash_key transaction_hash)
    on_some (from_value s) bytes
