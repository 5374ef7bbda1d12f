-- ===== src/Storage/Db.antt =====
-- The two databases as the backends use them: column families (storage/rocksdb/src/all.rs) or
-- databases of one environment (storage/heed/src/all.rs), and values as JSON.
use Prim.Native.String.{String}
use op_move.Base.{
  ℕ, ◌≡◌, List, [], ◌∷◌, Option, none, some, Bytes, Bool, true, ◌&&◌, ◌==◌, if◌then◌else◌,
}
use op_move.Base.Same.{same_bytes}
use op_move.Storage.Keys.{lex_le}

-- What an operation returns: its result, an error of the database, or a panic.
pub data DbResult (A : Type 0) : Type 0 where
  ok : A → DbResult A
  err : ℕ → DbResult A
  panicked : DbResult A

infixl 5 ◌>>=◌
abbrev pub ◌>>=◌ : {A B : Type 0} → DbResult A → (A → DbResult B) → DbResult B
ok a >>= f = f a
err e >>= f = err e
panicked >>= f = panicked

-- `expect` and `unwrap`.
abbrev pub expect : {A : Type 0} → Option A → DbResult A
expect none = panicked
expect (some a) = ok a

pub data ColumnFamily : Type 0 where
  block height state state_height trie trie_root evm_storage_trie evm_storage_trie_root transaction
        receipt payload :
      ColumnFamily

-- `COLUMN_FAMILIES` and `DATABASES`, by name.
unfoldable pub family_name : ColumnFamily → String
family_name ColumnFamily.block = "block"
family_name ColumnFamily.height = "height"
family_name ColumnFamily.state = "state"
family_name ColumnFamily.state_height = "state_height"
family_name ColumnFamily.trie = "trie"
family_name ColumnFamily.trie_root = "trie_root"
family_name ColumnFamily.evm_storage_trie = "evm_storage_trie"
family_name ColumnFamily.evm_storage_trie_root = "evm_storage_trie_root"
family_name ColumnFamily.transaction = "transaction"
family_name ColumnFamily.receipt = "receipt"
family_name ColumnFamily.payload = "payload"

abbrev pub family_index : ColumnFamily → ℕ
family_index ColumnFamily.block = 0
family_index ColumnFamily.height = 1
family_index ColumnFamily.state = 2
family_index ColumnFamily.state_height = 3
family_index ColumnFamily.trie = 4
family_index ColumnFamily.trie_root = 5
family_index ColumnFamily.evm_storage_trie = 6
family_index ColumnFamily.evm_storage_trie_root = 7
family_index ColumnFamily.transaction = 8
family_index ColumnFamily.receipt = 9
family_index ColumnFamily.payload = 10

-- One entry of a batch of writes.
pub record Put : Type 0 where
  pub family : ColumnFamily
  pub key : Bytes
  pub value : Bytes

-- What a database holds.
abbrev pub Contents : Type 0
Contents = ColumnFamily → Bytes → Option Bytes

abbrev pub hits : Put → ColumnFamily → Bytes → Bool
hits p cf k = (family_index p.family == family_index cf) && same_bytes p.key k

abbrev pub after_put : Contents → Put → Contents
after_put c p cf k = if hits p cf k then some p.value else c cf k

abbrev pub after_puts : Contents → List Put → Contents
after_puts c [] = c
after_puts c (p ∷ ps) = after_puts (after_put c p) ps

-- The entry with the greatest key, if there is an entry.
abbrev pub IsLast : (Bytes → Option Bytes) → Option (Bytes × Bytes) → Type 0
IsLast c none = (k : Bytes) → c k ≡ none
IsLast c (some (k, v)) = (c k ≡ some v) × ((j w : Bytes) → c j ≡ some w → lex_le j k ≡ true)

-- The library rocksdb.
pub record RocksDb : Type 1 where
  pub Handle : Type 0
  pub get_cf : Handle → ColumnFamily → Bytes → DbResult (Option Bytes)
  -- `write` of a batch.
  pub write : Handle → List Put → DbResult Handle
  -- The first entry of an iterator that begins at the end.
  pub last : Handle → ColumnFamily → DbResult (Option (Bytes × Bytes))
  pub contents : Handle → Contents

-- The documented behaviour of a database that does not fail: later writes of a batch win.
pub record IsRocksDb (r : RocksDb) : Type 0 where
  pub get :
      (d : r.Handle) (cf : ColumnFamily) (k : Bytes)
      → r.get_cf d cf k ≡ DbResult.ok (r.contents d cf k)
  pub write :
      (d : r.Handle) (batch : List Put)
      → (d' : r.Handle) × (r.write d batch ≡ DbResult.ok d')
        × ((cf : ColumnFamily) (k : Bytes)
            → r.contents d' cf k ≡ after_puts (r.contents d) batch cf k)
  pub last :
      (d : r.Handle) (cf : ColumnFamily)
      → (entry : Option (Bytes × Bytes)) × (r.last d cf ≡ DbResult.ok entry)
        × IsLast (r.contents d cf) entry

-- `serde_json`, for one type of values; no result is a failure.
pub record Serde (A : Type 0) : Type 0 where
  pub to_vec : A → Option Bytes
  pub from_slice : Bytes → Option A

-- What is written of these values reads back.
abbrev pub ReadBack : {A : Type 0} → Serde A → List A → Type 0
ReadBack s [] = Unit
ReadBack s (a ∷ rest) =
    ((bytes : Bytes) × (s.to_vec a ≡ some bytes) × (s.from_slice bytes ≡ some a)) × ReadBack s rest
