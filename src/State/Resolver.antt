-- ===== src/State/Resolver.antt =====
-- `EthTrieResolver` of blockchain/src/state/read.rs: modules and resources as the Move VM reads them
-- from the state trie.
use Prim.Native.String.{String}
use op_move.Base.{ℕ, Bool, Option, none, some, AccountAddress, Bytes, length, if◌then◌else◌}
use op_move.Storage.Db.{DbResult, ok, err, panicked, ◌>>=◌, expect}
use op_move.State.{
  Encodings, TreeKey, StructTag, key_hash, resource_key, is_evm_storage_or_account_key,
}
use op_move.State.Store.{MerkleTrie}

-- The status codes of the errors.
abbrev pub storage_error : ℕ
storage_error = 0

abbrev pub data_format_error : ℕ
data_format_error = 1

-- `trie_err`.
abbrev pub trie_err : {A : Type 0} → DbResult A → DbResult A
trie_err (ok a) = ok a
trie_err (err e) = err storage_error
trie_err panicked = panicked

abbrev pub some_or : {A : Type 0} → ℕ → Option A → DbResult A
some_or e none = err e
some_or e (some a) = ok a

-- A resource with its length.
abbrev pub with_len : Option Bytes → Option Bytes × ℕ
with_len none = (none, 0)
with_len (some bytes) = (some bytes, length bytes)

module _ (t : MerkleTrie) (lib : Encodings) where
  -- Bytes that are no state value are a panic.
  abbrev pub deserialize_state_value : Option Bytes → DbResult (Option Bytes)
  deserialize_state_value none = ok none
  deserialize_state_value (some bytes) = do
    inner ← expect (lib.state_value_of bytes)
    ok (some inner)

  unfoldable pub get_module : t.Trie → AccountAddress → String → DbResult (Option Bytes)
  unfolding key_hash
  get_module trie address name = do
    value ←
        trie_err (t.get_bytes trie (key_hash lib (TreeKey.state_key (lib.module_key address name))))
    deserialize_state_value value

  abbrev pub resource_of : Bool → Option Bytes → DbResult (Option Bytes × ℕ)
  resource_of is_evm value = do
    value ← (if is_evm then ok value else deserialize_state_value value)
    ok (with_len value)

  unfoldable pub get_resource : t.Trie → AccountAddress → StructTag → DbResult (Option Bytes × ℕ)
  unfolding key_hash resource_key is_evm_storage_or_account_key
  get_resource trie address k = do
    key ← some_or data_format_error (resource_key lib address k)
    value ← trie_err (t.get_bytes trie (key_hash lib key))
    resource_of (is_evm_storage_or_account_key k) value
