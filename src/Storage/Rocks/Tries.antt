-- ===== src/Storage/Rocks/Tries.antt =====
-- storage/rocksdb/src/trie.rs and evm_storage_trie.rs: the nodes and roots of the state trie and of
-- the storage tries of the accounts, and the roots by height of state.rs. Nothing is ever removed,
-- so that the nodes of earlier states stay.
pub mod Accounts
pub mod Heights
use op_move.Base.{
  ℕ, zero, suc, ◌+◌, Bool, true, false, List, [], ◌∷◌, ◌++◌, Option, none, some, B256, Bytes,
  Address, ◌==◌, if◌then◌else◌, unwrap_or,
}
use op_move.Base.Same.{same_bytes}
use op_move.Storage.Keys.{to_be_bytes, u64_key, hash_key}
use op_move.Storage.Db.{DbResult, ok, err, panicked, ◌>>=◌, expect, ColumnFamily, Put, RocksDb}
use op_move.Storage.Rocks.{on_some, hash_of, u64_of}

-- The text "trie_root", the one key of the family of the root, and "state_height" likewise.
abbrev pub root_key : Bytes
root_key = 116 ∷ 114 ∷ 105 ∷ 101 ∷ 95 ∷ 114 ∷ 111 ∷ 111 ∷ 116 ∷ []

abbrev pub height_key : Bytes
height_key = 115 ∷ 116 ∷ 97 ∷ 116 ∷ 101 ∷ 95 ∷ 104 ∷ 101 ∷ 105 ∷ 103 ∷ 104 ∷ 116 ∷ []

-- An address of 20 bytes.
unfoldable pub address_bytes : Address → Bytes
unfolding to_be_bytes
address_bytes account = to_be_bytes 20 account

-- The key of a node of an account.
unfoldable pub unique_key : Address → Bytes → Bytes
unfolding address_bytes
unique_key account key = address_bytes account ++ key

-- `keys.into_iter().zip(values)` as puts, with the key that is written.
pub zip_puts : ColumnFamily → (Bytes → Bytes) → List Bytes → List Bytes → List Put
zip_puts cf key_of [] values = []
zip_puts cf key_of (key ∷ keys) [] = []
zip_puts cf key_of (key ∷ keys) (value ∷ values) =
    (record { family = cf; key = key_of key; value = value }) ∷ zip_puts cf key_of keys values

module _ (r : RocksDb) where
  -- `RocksEthTrieDb`.
  unfoldable pub trie_root : r.Handle → DbResult (Option B256)
  unfolding hash_of
  trie_root db = do bytes ← r.get_cf db ColumnFamily.trie_root root_key; on_some hash_of bytes

  unfoldable pub put_trie_root : r.Handle → B256 → DbResult r.Handle
  unfolding hash_key
  put_trie_root db root =
      r.write db
        ((record { family = ColumnFamily.trie_root; key = root_key; value = hash_key root }) ∷ [])

  unfoldable pub get_node : r.Handle → Bytes → DbResult (Option Bytes)
  get_node db key = r.get_cf db ColumnFamily.trie key

  unfoldable pub insert_node : r.Handle → Bytes → Bytes → DbResult r.Handle
  insert_node db key value =
      r.write db ((record { family = ColumnFamily.trie; key = key; value = value }) ∷ [])

  unfoldable pub insert_nodes : r.Handle → List Bytes → List Bytes → DbResult r.Handle
  unfolding zip_puts
  insert_nodes db keys values = r.write db (zip_puts ColumnFamily.trie (λ key. key) keys values)

  unfoldable pub remove_node : r.Handle → Bytes → DbResult r.Handle
  remove_node db key = ok db

  -- `RocksEthStorageTrieDb`, the tries of all accounts in one family.
  unfoldable pub storage_root : Address → r.Handle → DbResult (Option B256)
  unfolding hash_of address_bytes
  storage_root account db = do
    bytes ← r.get_cf db ColumnFamily.evm_storage_trie_root (address_bytes account)
    on_some hash_of bytes

  unfoldable pub put_storage_root : Address → r.Handle → B256 → DbResult r.Handle
  unfolding hash_key address_bytes
  put_storage_root account db root = r.write db (
      (record {
        family = ColumnFamily.evm_storage_trie_root;
        key = address_bytes account;
        value = hash_key root;
      })
      ∷ [])

  unfoldable pub get_storage_node : Address → r.Handle → Bytes → DbResult (Option Bytes)
  unfolding unique_key
  get_storage_node account db key =
      r.get_cf db ColumnFamily.evm_storage_trie (unique_key account key)

  unfoldable pub insert_storage_node : Address → r.Handle → Bytes → Bytes → DbResult r.Handle
  unfolding unique_key
  insert_storage_node account db key value = r.write db (
      (record {
        family = ColumnFamily.evm_storage_trie;
        key = unique_key account key;
        value = value;
      })
      ∷ [])

  unfoldable pub insert_storage_nodes :
      Address → r.Handle → List Bytes → List Bytes → DbResult r.Handle
  unfolding unique_key zip_puts
  insert_storage_nodes account db keys values =
      r.write db (zip_puts ColumnFamily.evm_storage_trie (unique_key account) keys values)

  unfoldable pub remove_storage_node : Address → r.Handle → Bytes → DbResult r.Handle
  remove_storage_node account db key = ok db

  -- `RocksDbStateQueries`: the state roots by height, and the height. A height of 2 ^ 64 would panic
  -- or wrap, which takes more blocks than a chain has.
  unfoldable pub state_height : r.Handle → DbResult ℕ
  unfolding u64_of
  state_height db = do
    bytes ← r.get_cf db ColumnFamily.state_height height_key
    height ← on_some u64_of bytes
    ok (unwrap_or height 0)

  unfoldable pub push_state_root : r.Handle → B256 → DbResult r.Handle
  unfolding state_height u64_key hash_key
  push_state_root db state_root = do
    height ← state_height db
    r.write db (
        (record {
          family = ColumnFamily.state;
          key = u64_key (height + 1);
          value = hash_key state_root;
        })
        ∷ (record {
          family = ColumnFamily.state_height;
          key = height_key;
          value = u64_key (height + 1);
        })
        ∷ [])

  unfoldable pub root_by_height : B256 → r.Handle → ℕ → DbResult (Option B256)
  unfolding hash_of u64_key
  root_by_height genesis_state_root db height =
      if height == 0
      then ok (some genesis_state_root)
      else (do bytes ← r.get_cf db ColumnFamily.state (u64_key height); on_some hash_of bytes)
