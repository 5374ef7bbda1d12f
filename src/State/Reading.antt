-- ===== src/State/Reading.antt =====
-- The resolver reads back the resources that a change set has written.
use op_move.Base.{ℕ, ◌≡◌, refl, Bool, true, false, Option, none, some, AccountAddress, B256, Bytes}
use op_move.Storage.Db.{DbResult, ok, ◌>>=◌}
use op_move.State.{
  Encodings, ChangeSet, StructTag, TreeKey, TreeValue, TreeValues, key_hash, serialize,
  resource_key, change_entries, is_evm_storage_or_account_key,
}
use op_move.State.Store.{MerkleTrie, insert_change_set}
use op_move.State.Resolver.{get_resource, resource_of, with_len, trie_err}
use op_move.State.Values.{
  last_of, non_empty, read_after, IsApart, IsMerkleTrie, insert_change_set_lem,
}
use op_move.State.Kinds.{IsEncodings, has_kind, last_of-has_kind, changes_kind}

-- The bytes of a value as the resolver gives them.
abbrev pub value_bytes : TreeValue → Option Bytes
value_bytes TreeValue.deleted = none
value_bytes (TreeValue.state_value bytes) = some bytes
value_bytes (TreeValue.evm_value bytes) = non_empty bytes

abbrev pub resource_after :
    Option TreeValue → DbResult (Option Bytes × ℕ) → DbResult (Option Bytes × ℕ)
resource_after none old = old
resource_after (some v) old = ok (with_len (value_bytes v))

module _ (t : MerkleTrie) (lib : Encodings) (laws : IsEncodings lib) where
  -- A value of the kind reads back as its bytes.
  resource_of_value :
      (b : Bool) (v : TreeValue)
      → has_kind b v ≡ true
      → resource_of t lib b (non_empty (serialize lib v)) ≡ ok (with_len (value_bytes v))
  unfolding serialize
  resource_of_value true TreeValue.deleted h = refl
  resource_of_value false TreeValue.deleted h = refl
  resource_of_value true (TreeValue.evm_value bytes) h = refl
  resource_of_value false (TreeValue.evm_value bytes) h = cc
  resource_of_value true (TreeValue.state_value bytes) h = cc
  resource_of_value false (TreeValue.state_value bytes) h =
      rw (laws.state_value_some bytes, laws.state_value bytes)

  read_value :
      (b : Bool) (o : Option TreeValue) (old : DbResult (Option Bytes))
      → ((v : TreeValue) → o ≡ some v → has_kind b v ≡ true)
      → (do value ← trie_err (read_after lib o old); resource_of t lib b value)
        ≡ resource_after o (do value ← trie_err old; resource_of t lib b value)
  read_value b none old h = refl
  read_value b (some v) old h = resource_of_value b v (h v refl)

-- A change set whose resources all have keys goes into the trie. If no other key of the change set
-- has the hash of a resource's key, the resolver then reads of the resource the value that the change
-- set has last under that key, no value if it is deleted, and what it read before if there is none.
pub get_resource-insert_change_set :
    (t : MerkleTrie) (lib : Encodings) (trie : t.Trie) (changes : ChangeSet) (entries : TreeValues)
    (address : AccountAddress) (k : StructTag) (key : TreeKey)
    → IsMerkleTrie t
    → IsEncodings lib
    → change_entries lib changes ≡ some entries
    → resource_key lib address k ≡ some key
    → IsApart lib key entries
    → (root : B256) × (trie' : t.Trie) × (insert_change_set t lib trie changes ≡ ok (root, trie'))
      × (get_resource t lib trie' address k
          ≡ resource_after (last_of key entries) (get_resource t lib trie address k))
unfolding get_resource
get_resource-insert_change_set t lib trie changes entries address k key law laws e hk apart =
    let (root, trie', inserted, reads, opened, opens, like) =
      insert_change_set_lem t lib law trie changes entries e in
    (
      root,
      trie',
      inserted,
      rw (hk, reads key apart)
          (read_value t lib laws (is_evm_storage_or_account_key k) (last_of key entries)
            (t.get_bytes trie (key_hash lib key))
            (λ v f.
              last_of-has_kind key (is_evm_storage_or_account_key k) entries v
                (changes_kind lib laws address k key hk changes entries e) f)),
    )
