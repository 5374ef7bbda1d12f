-- ===== src/State/Store.antt =====
-- The state trie and the state that a node keeps on it: `insert_change_set_into_merkle_trie` of
-- state/src/lib.rs and `RocksDbState` of storage/rocksdb/src/state.rs.
use op_move.Base.{[], ◌∷◌, Option, none, some, B256, Bytes}
use op_move.Storage.Db.{DbResult, ok, err, panicked, ◌>>=◌, expect}
use op_move.State.{Encodings, ChangeSet, TreeValues, key_hash, serialize, to_tree_values}

-- The library of tries, over a store that keeps their nodes and a root.
pub record MerkleTrie : Type 1 where
  pub Db : Type 0
  pub Trie : Type 0
  pub root : Db → DbResult (Option B256)
  pub put_root : Db → B256 → DbResult Db
  pub new_trie : Db → Trie
  pub from_root : Db → B256 → DbResult Trie
  pub db_of : Trie → Db
  pub get_bytes : Trie → B256 → DbResult (Option Bytes)
  pub insert_bytes : Trie → B256 → Bytes → DbResult Trie
  -- `root_hash`, which writes the nodes.
  pub root_hash : Trie → DbResult (B256 × Trie)

-- `expect` and `unwrap` of a result.
abbrev pub unwrap : {A : Type 0} → DbResult A → DbResult A
unwrap (ok a) = ok a
unwrap (err e) = panicked
unwrap panicked = panicked

module _ (t : MerkleTrie) (lib : Encodings) where
  unfoldable pub insert_values : t.Trie → TreeValues → DbResult t.Trie
  unfolding key_hash serialize
  insert_values trie [] = ok trie
  insert_values trie ((k, v) ∷ values) = do
    trie ← t.insert_bytes trie (key_hash lib k) (serialize lib v)
    insert_values trie values

  unfoldable pub insert_change_set : t.Trie → ChangeSet → DbResult (B256 × t.Trie)
  unfolding insert_values to_tree_values
  insert_change_set trie changes = do
    values ← expect (to_tree_values lib changes)
    trie ← insert_values trie values
    t.root_hash trie

  -- `RocksDbState`, with the resolver by its trie.
  pub record RocksDbState : Type 0 where
    pub db : t.Db
    pub resolver : t.Trie
    pub state_root : Option B256

  abbrev pub try_from_opt_root : t.Db → Option B256 → DbResult t.Trie
  try_from_opt_root db none = ok (t.new_trie db)
  try_from_opt_root db (some root) = t.from_root db root

  unfoldable pub open_state : t.Db → DbResult RocksDbState
  open_state db = do
    state_root ← unwrap (t.root db)
    trie ← unwrap (try_from_opt_root db state_root)
    ok (record { db = db; resolver = trie; state_root = state_root })

  unfoldable pub apply : RocksDbState → ChangeSet → DbResult RocksDbState
  unfolding insert_change_set
  apply state changes = do
    tree ← unwrap (try_from_opt_root state.db state.state_root)
    inserted ← insert_change_set tree changes
    db ← unwrap (t.put_root (t.db_of inserted.1) inserted.0)
    ok (record { db = db; resolver = inserted.1; state_root = some inserted.0 })
