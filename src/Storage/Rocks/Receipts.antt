-- ===== src/Storage/Rocks/Receipts.antt =====
-- Which transactions the receipts in RocksDB have seen.
use op_move.Base.{
  ◌^◌, ◌<◌, ◌≡◌, refl, ◌∙◌, Bool, ◌||◌, List, [], ◌∷◌, Option, none, some, B256, Bytes, ◌==◌,
  if◌then◌else◌, is_some, arith,
}
use op_move.Base.Same.{same_bytes}
use op_move.Storage.Keys.{hash_key, same_bytes-to_be_bytes}
use op_move.Storage.Db.{
  ok, ColumnFamily, Put, Contents, after_put, after_puts, RocksDb, IsRocksDb, Serde, ReadBack,
}
use op_move.Storage.Rocks.{receipt_puts, extend_receipts, contains}
use op_move.Chain.Types.{ExtendedReceipt}
use op_move.Chain.Receipts.Seen.{has_receipt}

abbrev pub AreReceipts : List ExtendedReceipt → Type 0
AreReceipts [] = Unit
AreReceipts (receipt ∷ receipts) = (receipt.transaction_hash < 256 ^ 32) × AreReceipts receipts

or_put :
    (t : Bool) (value : Bytes) (old : Option Bytes) (rest : Bool)
    → (is_some (if t then some value else old) || rest) ≡ (is_some old || (t || rest))
or_put t value none rest = ground arith
or_put t value (some v) rest = ground arith

at_put :
    (c : Contents) (receipt : ExtendedReceipt) (value : Bytes) (k : B256)
    (receipts : List ExtendedReceipt)
    → k < 256 ^ 32
    → receipt.transaction_hash < 256 ^ 32
    → (is_some (
          if same_bytes (hash_key receipt.transaction_hash) (hash_key k)
          then some value
          else c ColumnFamily.receipt (hash_key k))
        || has_receipt k receipts)
      ≡ (is_some (c ColumnFamily.receipt (hash_key k)) || has_receipt k (receipt ∷ receipts))
unfolding hash_key
at_put c receipt value k receipts kl hl =
    rw (same_bytes-to_be_bytes 32 receipt.transaction_hash k hl kl) (
      or_put (receipt.transaction_hash == k) value (c ColumnFamily.receipt (hash_key k))
        (has_receipt k receipts))

module _ (s : Serde ExtendedReceipt) where
  receipt_puts_lem :
      (r : RocksDb) (receipts : List ExtendedReceipt)
      → (k : B256) → k < 256 ^ 32
      → ReadBack s receipts
      → AreReceipts receipts
      → (batch : List Put) × (receipt_puts r s receipts ≡ ok batch)
        × ((c : Contents)
            → is_some (after_puts c batch ColumnFamily.receipt (hash_key k))
              ≡ (is_some (c ColumnFamily.receipt (hash_key k)) || has_receipt k receipts))
  unfolding receipt_puts
  receipt_puts_lem r [] k kl reads h = ([], refl, λ c. ground arith)
  receipt_puts_lem r (receipt ∷ receipts) k kl reads h =
      let (value, written, read) = reads.0 in
      let (batch, rest, seen) = receipt_puts_lem r receipts k kl reads.1 h.1 in
      let put : Put = record {
        family = ColumnFamily.receipt;
        key = hash_key receipt.transaction_hash;
        value = value;
      } in
      (
        put ∷ batch,
        rw (written, rest),
        λ c. seen (after_put c put) ∙ at_put c receipt value k receipts kl h.0,
      )

-- Extending the receipts of a working database succeeds, and then a transaction has been seen exactly
-- if it had been, or its receipt is one of the new ones.
pub contains-extend_receipts :
    (r : RocksDb) (s : Serde ExtendedReceipt) (db : r.Handle) (receipts : List ExtendedReceipt)
    (k : B256)
    → IsRocksDb r
    → ReadBack s receipts
    → AreReceipts receipts
    → k < 256 ^ 32
    → (db' : r.Handle) × (old : Bool) × (extend_receipts r s db receipts ≡ ok db')
      × (contains r db k ≡ ok old)
      × (contains r db' k ≡ ok (old || has_receipt k receipts))
unfolding extend_receipts contains
contains-extend_receipts r s db receipts k law reads h kl =
    let (batch, puts, seen) = receipt_puts_lem s r receipts k kl reads h in
    let (db', done, after) = law.write db batch in
    (
      db',
      is_some (r.contents db ColumnFamily.receipt (hash_key k)),
      rw puts done,
      rw (law.get db ColumnFamily.receipt (hash_key k)),
      rw (
        law.get db' ColumnFamily.receipt (hash_key k),
        after ColumnFamily.receipt (hash_key k),
        seen (r.contents db),
      ),
    )
