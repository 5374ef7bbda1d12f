-- ===== src/Storage/Heed/Tries.antt =====
-- storage/heed/src/trie.rs, evm_storage_trie.rs and state.rs: trie nodes and roots, and the state roots
-- by height. Nothing is ever removed.
use op_move.Base.{
  ℕ, ◌+◌, List, [], ◌∷◌, Option, some, B256, Bytes, Address, ◌==◌, if◌then◌else◌, unwrap_or,
}
use op_move.Storage.Keys.{u64_key, hash_key}
use op_move.Storage.Db.{DbResult, ok, ◌>>=◌, ColumnFamily}
use op_move.Storage.Rocks.Tries.{address_bytes, unique_key}
use op_move.Storage.Heed.{Heed, database, get, decode_hash, decode_u64, reading, writing}

-- `ROOT_KEY` and `HEIGHT_KEY`.
abbrev pub zero_key : Bytes
unfolding u64_key
zero_key = u64_key 0

module _ (h : Heed) where
  -- A read that commits once the value is there.
  abbrev pub fetching : {A : Type 0} → h.Env → ColumnFamily → (h.RoTxn → DbResult A) → DbResult A
  fetching env cf read = do
    t ← h.read_txn env
    _ ← database h t cf
    value ← read t
    _ ← h.commit_read t
    ok value

  -- `zip` of keys and values, each put in order.
  pub put_nodes :
      ColumnFamily → (Bytes → Bytes) → List Bytes → List Bytes → h.RwTxn → DbResult h.RwTxn
  put_nodes cf key_of [] values t = ok t
  put_nodes cf key_of (key ∷ keys) [] t = ok t
  put_nodes cf key_of (key ∷ keys) (value ∷ values) t = do
    t ← h.put_bytes t cf (key_of key) value
    put_nodes cf key_of keys values t

  abbrev pub writing_nodes :
      ColumnFamily → (Bytes → Bytes) → h.Env → List Bytes → List Bytes → DbResult h.Env
  unfolding put_nodes
  writing_nodes cf key_of env keys values = do
    t ← h.write_txn env
    _ ← database h (h.as_read t) cf
    t ← put_nodes cf key_of keys values t
    h.commit t

  -- `HeedEthTrieDb`.
  unfoldable pub trie_root : h.Env → DbResult (Option B256)
  unfolding decode_hash zero_key
  trie_root env =
      fetching env ColumnFamily.trie_root
        (λ t. get h (decode_hash h) t ColumnFamily.trie_root zero_key)

  unfoldable pub put_trie_root : h.Env → B256 → DbResult h.Env
  unfolding hash_key zero_key
  put_trie_root env root = writing h env ColumnFamily.trie_root zero_key (hash_key root)

  unfoldable pub get_node : h.Env → Bytes → DbResult (Option Bytes)
  get_node env key = fetching env ColumnFamily.trie (λ t. h.get_bytes t ColumnFamily.trie key)

  unfoldable pub insert_node : h.Env → Bytes → Bytes → DbResult h.Env
  insert_node env key value = writing h env ColumnFamily.trie key value

  unfoldable pub insert_nodes : h.Env → List Bytes → List Bytes → DbResult h.Env
  unfolding writing_nodes
  insert_nodes = writing_nodes ColumnFamily.trie (λ key. key)

  unfoldable pub remove_node : h.Env → Bytes → DbResult h.Env
  remove_node env key = ok env

  -- `HeedEthStorageTrieDb`.
  unfoldable pub storage_root : Address → h.Env → DbResult (Option B256)
  unfolding decode_hash address_bytes
  storage_root account env =
      fetching env ColumnFamily.evm_storage_trie_root
        (λ t. get h (decode_hash h) t ColumnFamily.evm_storage_trie_root (address_bytes account))

  unfoldable pub put_storage_root : Address → h.Env → B256 → DbResult h.Env
  unfolding hash_key address_bytes
  put_storage_root account env root =
      writing h env ColumnFamily.evm_storage_trie_root (address_bytes account) (hash_key root)

  unfoldable pub get_storage_node : Address → h.Env → Bytes → DbResult (Option Bytes)
  unfolding unique_key
  get_storage_node account env key =
      fetching env ColumnFamily.evm_storage_trie
        (λ t. h.get_bytes t ColumnFamily.evm_storage_trie (unique_key account key))

  unfoldable pub insert_storage_node : Address → h.Env → Bytes → Bytes → DbResult h.Env
  unfolding unique_key
  insert_storage_node account env key value =
      writing h env ColumnFamily.evm_storage_trie (unique_key account key) value

  unfoldable pub insert_storage_nodes : Address → h.Env → List Bytes → List Bytes → DbResult h.Env
  unfolding unique_key writing_nodes
  insert_storage_nodes account = writing_nodes ColumnFamily.evm_storage_trie (unique_key account)

  unfoldable pub remove_storage_node : Address → h.Env → Bytes → DbResult h.Env
  remove_storage_node account env key = ok env

  -- `HeedStateQueries`.
  unfoldable pub state_height : h.Env → DbResult ℕ
  unfolding decode_u64 zero_key
  state_height env = do
    height ←
        reading h env ColumnFamily.state_height
          (λ t. get h (decode_u64 h) t ColumnFamily.state_height zero_key)
    ok (unwrap_or height 0)

  unfoldable pub push_state_root : h.Env → B256 → DbResult h.Env
  unfolding state_height u64_key hash_key zero_key
  push_state_root env state_root = do
    height ← state_height env
    t ← h.write_txn env
    _ ← database h (h.as_read t) ColumnFamily.state
    t ← h.put_bytes t ColumnFamily.state (u64_key (height + 1)) (hash_key state_root)
    _ ← database h (h.as_read t) ColumnFamily.state_height
    t ← h.put_bytes t ColumnFamily.state_height zero_key (u64_key (height + 1))
    h.commit t

  unfoldable pub root_by_height : B256 → h.Env → ℕ → DbResult (Option B256)
  unfolding decode_hash u64_key
  root_by_height genesis_state_root env height =
      if height == 0
      then ok (some genesis_state_root)
      else reading h env ColumnFamily.state
          (λ t. get h (decode_hash h) t ColumnFamily.state (u64_key height))
