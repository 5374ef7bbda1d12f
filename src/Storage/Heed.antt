-- ===== src/Storage/Heed.antt =====
-- storage/heed/src: the repositories and queries over LMDB, one database of the environment for each
-- kind of value, every operation in a transaction of its own. Bytes that do not read are an error of
-- the database here, not a panic.
pub mod Blocks
pub mod Memory
pub mod Tries
use op_move.Base.{
  ℕ, ◌+◌, ◌≡◌, Bool, true, false, List, [], ◌∷◌, ◌++◌, Option, none, some, B256, Bytes, Address,
  PayloadId, map, is_some, unwrap_or, ◌==◌, if◌then◌else◌,
}
use op_move.Storage.Keys.{u64_key, hash_key, from_be_bytes}
use op_move.Storage.Db.{
  DbResult, ok, err, panicked, ◌>>=◌, expect, ColumnFamily, Contents, after_put, IsLast, Serde,
}
use op_move.Storage.Rocks.{on_some, and_then, prepend}
use op_move.Storage.Rocks.Tries.{address_bytes, unique_key}
use op_move.Transaction.Types.{OpTxEnvelope}
use op_move.Chain.Types.{ExtendedBlock, ExtendedTransaction, ExtendedReceipt, transaction_hashes}
use op_move.Chain.Responses.{
  BlockResponse, from_block_with_transactions, from_block_with_transaction_hashes, PayloadResponse,
  payload_response,
}

-- The library heed: an environment with its read and write transactions.
pub record Heed : Type 1 where
  pub Env : Type 0
  pub RoTxn : Type 0
  pub RwTxn : Type 0
  pub read_txn : Env → DbResult RoTxn
  pub write_txn : Env → DbResult RwTxn
  pub as_read : RwTxn → RoTxn
  -- `open_database` of an environment, which may lack the database.
  pub open_database : RoTxn → ColumnFamily → DbResult (Option (Unit {0}))
  pub get_bytes : RoTxn → ColumnFamily → Bytes → DbResult (Option Bytes)
  pub last_bytes : RoTxn → ColumnFamily → DbResult (Option (Bytes × Bytes))
  pub put_bytes : RwTxn → ColumnFamily → Bytes → Bytes → DbResult RwTxn
  pub commit_read : RoTxn → DbResult (Unit {0})
  pub commit : RwTxn → DbResult Env
  -- `Error::Encoding` and `Error::Decoding`.
  pub encoding_error : ℕ
  pub decoding_error : ℕ
  pub contents : Env → Contents
  pub seen : RoTxn → Contents
  pub pending : RwTxn → Contents

-- The documented behaviour of an environment that does not fail and has its databases: a read
-- transaction sees what the environment holds, and a commit makes the puts seen.
pub record IsHeed (h : Heed) : Type 0 where
  pub read_txn :
      (env : h.Env)
      → (t : h.RoTxn) × (h.read_txn env ≡ ok t)
        × ((cf : ColumnFamily) (k : Bytes) → h.seen t cf k ≡ h.contents env cf k)
  pub write_txn :
      (env : h.Env)
      → (t : h.RwTxn) × (h.write_txn env ≡ ok t)
        × ((cf : ColumnFamily) (k : Bytes) → h.pending t cf k ≡ h.contents env cf k)
  pub open_database : (t : h.RoTxn) (cf : ColumnFamily) → h.open_database t cf ≡ ok (some tt)
  pub get : (t : h.RoTxn) (cf : ColumnFamily) (k : Bytes) → h.get_bytes t cf k ≡ ok (h.seen t cf k)
  pub last :
      (t : h.RoTxn) (cf : ColumnFamily)
      → (entry : Option (Bytes × Bytes)) × (h.last_bytes t cf ≡ ok entry)
        × IsLast (h.seen t cf) entry
  pub put :
      (t : h.RwTxn) (cf : ColumnFamily) (k v : Bytes)
      → (t' : h.RwTxn) × (h.put_bytes t cf k v ≡ ok t')
        × ((cf' : ColumnFamily) (j : Bytes)
            → h.pending t' cf' j
              ≡ after_put (h.pending t) (record { family = cf; key = k; value = v }) cf' j)
  pub commit_read : (t : h.RoTxn) → h.commit_read t ≡ ok tt
  pub commit :
      (t : h.RwTxn)
      → (env : h.Env) × (h.commit t ≡ ok env)
        × ((cf : ColumnFamily) (k : Bytes) → h.contents env cf k ≡ h.pending t cf k)

module _ (h : Heed) where
  -- `BytesEncode` and `BytesDecode`.
  abbrev pub or_error : {A : Type 0} → ℕ → Option A → DbResult A
  or_error e none = err e
  or_error e (some a) = ok a

  abbrev pub decode : {A : Type 0} → Serde A → Bytes → DbResult A
  decode s bytes = or_error h.decoding_error (s.from_slice bytes)

  unfoldable pub decode_hash : Bytes → DbResult B256
  unfolding from_be_bytes
  decode_hash bytes = or_error h.decoding_error (from_be_bytes 32 bytes)

  unfoldable pub decode_u64 : Bytes → DbResult ℕ
  unfolding from_be_bytes
  decode_u64 bytes = or_error h.decoding_error (from_be_bytes 8 bytes)

  -- `block_database` and the others, which panic on a missing database.
  abbrev pub database : h.RoTxn → ColumnFamily → DbResult (Unit {0})
  database t cf = do handle ← h.open_database t cf; expect handle

  -- `HeedDb::get`, `HeedDb::put` and `HeedDb::last`, by the codec of the values.
  abbrev pub get :
      {A : Type 0} → (Bytes → DbResult A) → h.RoTxn → ColumnFamily → Bytes → DbResult (Option A)
  get read t cf key = do bytes ← h.get_bytes t cf key; on_some read bytes

  -- A result that is looked at later; a panic is not.
  abbrev pub evaluated : {A : Type 0} → DbResult A → DbResult (DbResult A)
  evaluated panicked = panicked
  evaluated (ok a) = ok (ok a)
  evaluated (err e) = ok (err e)

  -- A read in a transaction of its own: the result of the read is looked at after the commit.
  abbrev pub reading : {A : Type 0} → h.Env → ColumnFamily → (h.RoTxn → DbResult A) → DbResult A
  reading env cf read = do
    t ← h.read_txn env
    _ ← database t cf
    response ← evaluated (read t)
    _ ← h.commit_read t
    response

  module _ (blocks : Serde ExtendedBlock) where
    -- `HeedBlockRepository`.
    unfoldable pub add : h.Env → ExtendedBlock → DbResult h.Env
    add env b = do
      t ← h.write_txn env
      _ ← database (h.as_read t) ColumnFamily.block
      value ← or_error h.encoding_error (blocks.to_vec b)
      t ← h.put_bytes t ColumnFamily.block (hash_key b.hash) value
      _ ← database (h.as_read t) ColumnFamily.height
      t ← h.put_bytes t ColumnFamily.height (u64_key b.block.header.number) (hash_key b.hash)
      h.commit t

    unfoldable pub by_hash : h.Env → B256 → DbResult (Option ExtendedBlock)
    unfolding hash_key
    by_hash env hash =
        reading env ColumnFamily.block
          (λ t. get (decode blocks) t ColumnFamily.block (hash_key hash))

    -- The last height must read too.
    abbrev pub last_height : h.RoTxn → DbResult (Option (ℕ × B256))
    unfolding decode_u64 decode_hash
    last_height t = do
      entry ← h.last_bytes t ColumnFamily.height
      on_some (λ e. (do height ← decode_u64 e.0; hash ← decode_hash e.1; ok (height, hash))) entry

    unfoldable pub latest : h.Env → DbResult (Option ExtendedBlock)
    unfolding last_height hash_key
    latest env = do
      t ← h.read_txn env
      _ ← database t ColumnFamily.height
      entry ← last_height t
      response ← evaluated (
          and_then
            (λ e. (do
              _ ← database t ColumnFamily.block
              get (decode blocks) t ColumnFamily.block (hash_key e.1)))
            entry)
      _ ← h.commit_read t
      response

    -- `HeedBlockQueries`.
    unfoldable pub latest_height : h.Env → DbResult (Option ℕ)
    unfolding last_height
    latest_height env = do
      t ← h.read_txn env
      _ ← database t ColumnFamily.height
      pair ← last_height t
      _ ← h.commit_read t
      on_some (λ e. ok e.0) pair

    module _ (txs : Serde ExtendedTransaction) where
      pub transactions : h.RoTxn → List B256 → DbResult (List ExtendedTransaction)
      transactions t [] = ok []
      transactions t (hash ∷ hashes) = do
        tx ← get (decode txs) t ColumnFamily.transaction (hash_key hash)
        rest ← transactions t hashes
        ok (prepend tx rest)

      unfoldable pub response_of : h.RoTxn → Bool → ExtendedBlock → DbResult BlockResponse
      unfolding transactions from_block_with_transactions from_block_with_transaction_hashes
      response_of t include_transactions b =
          if include_transactions
          then (do
            _ ← database t ColumnFamily.transaction
            found ← transactions t (transaction_hashes b)
            _ ← h.commit_read t
            ok (from_block_with_transactions b found))
          else (do _ ← h.commit_read t; ok (from_block_with_transaction_hashes b))

      abbrev pub response_or_none :
          h.RoTxn → Bool → Option ExtendedBlock → DbResult (Option BlockResponse)
      unfolding response_of
      response_or_none t include_transactions none = do _ ← h.commit_read t; ok none
      response_or_none t include_transactions (some b) = do
        response ← response_of t include_transactions b
        ok (some response)

      unfoldable pub query_by_hash : h.Env → B256 → Bool → DbResult (Option BlockResponse)
      unfolding response_or_none hash_key
      query_by_hash env hash include_transactions = do
        t ← h.read_txn env
        _ ← database t ColumnFamily.block
        b ← get (decode blocks) t ColumnFamily.block (hash_key hash)
        response_or_none t include_transactions b

      unfoldable pub query_by_height : h.Env → ℕ → Bool → DbResult (Option BlockResponse)
      unfolding query_by_hash decode_hash u64_key
      query_by_height env height include_transactions = do
        t ← h.read_txn env
        _ ← database t ColumnFamily.height
        hash ← get decode_hash t ColumnFamily.height (u64_key height)
        and_then (λ hash. (do _ ← h.commit_read t; query_by_hash env hash include_transactions))
            hash

      -- `HeedPayloadQueries`; an id is a number of 64 bits.
      unfoldable pub payload_in :
          (OpTxEnvelope → Bytes)
          → h.RoTxn
          → Option ExtendedBlock
          → DbResult (Option PayloadResponse)
      unfolding transactions payload_response
      payload_in encode_2718 t none = ok none
      payload_in encode_2718 t (some b) = do
        _ ← database t ColumnFamily.transaction
        found ← transactions t (transaction_hashes b)
        ok (some (payload_response encode_2718 b (map (λ tx. tx.inner) found)))

      unfoldable pub payload_by_hash :
          (OpTxEnvelope → Bytes) → h.Env → B256 → DbResult (Option PayloadResponse)
      unfolding payload_in hash_key
      payload_by_hash encode_2718 env hash = reading env ColumnFamily.block (λ t. (do
        b ← get (decode blocks) t ColumnFamily.block (hash_key hash)
        payload_in encode_2718 t b))

      unfoldable pub payload_by_id :
          (OpTxEnvelope → Bytes) → h.Env → PayloadId → DbResult (Option PayloadResponse)
      unfolding payload_by_hash decode_hash u64_key
      payload_by_id encode_2718 env id = do
        t ← h.read_txn env
        _ ← database t ColumnFamily.payload
        hash ← get decode_hash t ColumnFamily.payload (u64_key id)
        and_then (λ hash. (do _ ← h.commit_read t; payload_by_hash encode_2718 env hash)) hash

  -- One put in a transaction of its own.
  abbrev pub writing : h.Env → ColumnFamily → Bytes → Bytes → DbResult h.Env
  writing env cf key value = do
    t ← h.write_txn env
    _ ← database (h.as_read t) cf
    t ← h.put_bytes t cf key value
    h.commit t

  unfoldable pub add_block_hash : h.Env → PayloadId → B256 → DbResult h.Env
  unfolding u64_key hash_key
  add_block_hash env id block_hash =
      writing env ColumnFamily.payload (u64_key id) (hash_key block_hash)

  -- `try_for_each` over the puts of a list.
  pub put_all :
      {A : Type 0} → Serde A → (A → B256) → ColumnFamily → List A → h.RwTxn → DbResult h.RwTxn
  put_all s hash_of cf [] t = ok t
  put_all s hash_of cf (a ∷ rest) t = do
    value ← or_error h.encoding_error (s.to_vec a)
    t ← h.put_bytes t cf (hash_key (hash_of a)) value
    put_all s hash_of cf rest t

  -- `HeedTransactionRepository` and `HeedReceiptRepository` with their queries.
  unfoldable pub extend_transactions :
      Serde ExtendedTransaction
      → (OpTxEnvelope → B256)
      → h.Env
      → List ExtendedTransaction
      → DbResult h.Env
  unfolding put_all
  extend_transactions s trie_hash env txs = do
    t ← h.write_txn env
    _ ← database (h.as_read t) ColumnFamily.transaction
    t ← put_all s (λ tx. trie_hash tx.inner) ColumnFamily.transaction txs t
    h.commit t

  unfoldable pub transaction_by_hash :
      Serde ExtendedTransaction → h.Env → B256 → DbResult (Option ExtendedTransaction)
  unfolding hash_key
  transaction_by_hash s env hash = do
    t ← h.read_txn env
    _ ← database t ColumnFamily.transaction
    response ← get (decode s) t ColumnFamily.transaction (hash_key hash)
    _ ← h.commit_read t
    ok response

  unfoldable pub extend_receipts :
      Serde ExtendedReceipt → h.Env → List ExtendedReceipt → DbResult h.Env
  unfolding put_all
  extend_receipts s env receipts = do
    t ← h.write_txn env
    _ ← database (h.as_read t) ColumnFamily.receipt
    t ← put_all s (λ receipt. receipt.transaction_hash) ColumnFamily.receipt receipts t
    h.commit t

  -- The value is not decoded.
  unfoldable pub contains : h.Env → B256 → DbResult Bool
  unfolding hash_key
  contains env transaction_hash = reading env ColumnFamily.receipt (λ t. (do
    bytes ← h.get_bytes t ColumnFamily.receipt (hash_key transaction_hash)
    ok (is_some bytes)))

  unfoldable pub by_transaction_hash :
      Serde ExtendedReceipt → h.Env → B256 → DbResult (Option ExtendedReceipt)
  unfolding hash_key
  by_transaction_hash s env transaction_hash =
      reading env ColumnFamily.receipt
        (λ t. get (decode s) t ColumnFamily.receipt (hash_key transaction_hash))
