-- ===== src/EvmExt/Storage.antt =====
-- evm-ext/src/state/storage.rs and evm-ext/src/state_changes.rs: the storage of the accounts of the
-- EVM in one trie each, and the changes that a session makes to them. No result is an error, on which
-- the callers panic.
pub mod Slots
pub mod Sessions
use op_move.Base.Partial.{◌>>=◌}
use op_move.Base.{
  ℕ, ◌≤◌, Bool, true, false, not, ◌||◌, List, [], ◌∷◌, Option, none, some, Address, B256, Bytes,
  HashMap, lookup, insert, remove, extend, unwrap_or, ◌==◌, if◌then◌else◌,
}

-- The library of tries, with the hash of a key and the encoding of a value.
pub record EthTrie : Type 1 where
  pub Trie : Type 0
  pub empty_trie : Trie
  pub from_root : HashMap Bytes → B256 → Option Trie
  pub get_bytes : Trie → B256 → Option (Option Bytes)
  pub insert_bytes : Trie → B256 → Bytes → Option Trie
  pub remove_key : Trie → B256 → Option Trie
  -- `root_hash_with_changed_nodes`.
  pub changed_nodes : Trie → Option (B256 × List (B256 × Bytes))
  pub keccak256 : ℕ → B256
  pub encode_word : ℕ → Bytes
  pub decode_word : Bytes → Option ℕ

-- What is persisted of an account's trie.
pub record StorageDb : Type 0 where
  pub root : Option B256
  pub nodes : HashMap Bytes

pub record StorageTrieChanges : Type 0 where
  pub root : B256
  pub trie_diff : HashMap Bytes

-- `StorageTriesChanges`.
abbrev pub StorageTriesChanges : Type 0
StorageTriesChanges = HashMap StorageTrieChanges

-- `Add for StorageTrieChanges`.
unfoldable pub add_changes : StorageTrieChanges → StorageTrieChanges → StorageTrieChanges
add_changes old changes = record {
  root = changes.root;
  trie_diff = extend old.trie_diff changes.trie_diff;
}

unfoldable pub merged : Option StorageTrieChanges → StorageTrieChanges → StorageTrieChanges
unfolding add_changes
merged (some old) changes = add_changes old changes
merged none changes = changes

unfoldable pub with_trie_changes :
    StorageTriesChanges → Address → StorageTrieChanges → StorageTriesChanges
unfolding merged
with_trie_changes tries address changes =
    insert address (merged (lookup address tries) changes) (remove address tries)

-- What the program reads of revm's `Account`.
pub record EvmAccount : Type 0 where
  pub is_touched : Bool
  pub is_selfdestructed : Bool
  pub changed_storage_slots : List (ℕ × ℕ)

abbrev pub EvmState : Type 0
EvmState = List (Address × EvmAccount)

abbrev pub is_unchanged : EvmAccount → Bool
is_unchanged account = not account.is_touched || account.is_selfdestructed

module _ (lib : EthTrie) where
  -- `StorageTrie::get` and `StorageTrie::insert`: a slot that is zero has no entry.
  abbrev pub decoded : Option Bytes → Option (Option ℕ)
  decoded none = some none
  decoded (some bytes) = do value ← lib.decode_word bytes; some (some value)

  unfoldable pub get_slot : lib.Trie → ℕ → Option (Option ℕ)
  get_slot trie index = do bytes ← lib.get_bytes trie (lib.keccak256 index); decoded bytes

  unfoldable pub insert_slot : lib.Trie → ℕ → ℕ → Option lib.Trie
  insert_slot trie index value =
      if value == 0
      then lib.remove_key trie (lib.keccak256 index)
      else lib.insert_bytes trie (lib.keccak256 index) (lib.encode_word value)

  -- `StorageTrieRepository::for_account`, from what is persisted.
  abbrev pub opened : HashMap Bytes → Option B256 → Option lib.Trie
  opened nodes (some root) = lib.from_root nodes root
  opened nodes none = some lib.empty_trie

  unfoldable pub for_account : StorageDb → Option lib.Trie
  for_account db = opened db.nodes db.root

  -- `ResolverBackedDB::storage_ref`.
  unfoldable pub storage_ref : StorageDb → ℕ → Option ℕ
  unfolding for_account get_slot
  storage_ref db index = do
    trie ← for_account db
    value ← get_slot trie index
    some (unwrap_or value 0)

  unfoldable pub insert_slots : lib.Trie → List (ℕ × ℕ) → Option lib.Trie
  unfolding insert_slot
  insert_slots trie [] = some trie
  insert_slots trie ((index, value) ∷ slots) = do
    trie ← insert_slot trie index value
    insert_slots trie slots

  unfoldable pub commit : lib.Trie → Option StorageTrieChanges
  commit trie = do
    (root, nodes) ← lib.changed_nodes trie
    some (record { root = root; trie_diff = extend [] nodes })

  -- The storage part of `add_account_changes`.
  unfoldable pub storage_changes : StorageDb → EvmAccount → Option StorageTrieChanges
  unfolding for_account insert_slots commit
  storage_changes db account = do
    storage ← for_account db
    storage ← insert_slots storage account.changed_storage_slots
    commit storage

  module _ (dbs : Address → StorageDb) where
    -- One round over the accounts of a state.
    unfoldable pub add_account :
        Address → EvmAccount → StorageTriesChanges → Option StorageTriesChanges
    unfolding storage_changes with_trie_changes
    add_account address account tries = if is_unchanged account then some tries else (do
      changes ← storage_changes (dbs address) account
      some (with_trie_changes tries address changes))

    unfoldable pub add_state : EvmState → StorageTriesChanges → Option StorageTriesChanges
    unfolding add_account
    add_state [] tries = some tries
    add_state ((address, account) ∷ accounts) tries = do
      tries ← add_account address account tries
      add_state accounts tries

    unfoldable pub add_states : List EvmState → StorageTriesChanges → Option StorageTriesChanges
    unfolding add_state
    add_states [] tries = some tries
    add_states (state ∷ states) tries = do tries ← add_state state tries; add_states states tries

    -- The storage part of `extract_evm_changes_from_native`.
    unfoldable pub extract_storage_changes : List EvmState → Option StorageTriesChanges
    unfolding add_states
    extract_storage_changes states = add_states states []

  -- `StorageTrie::apply` on what is persisted.
  unfoldable pub apply_changes : StorageDb → StorageTrieChanges → Option StorageDb
  unfolding for_account
  apply_changes db changes = do
    _ ← for_account db
    some (record { root = some changes.root; nodes = extend db.nodes changes.trie_diff })
