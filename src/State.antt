-- ===== src/State.antt =====
-- state/src: the changes of a transaction as values of the state trie. Accounts of the EVM stand under
-- their addresses, everything else under a state key; nodes.rs says how both are hashed and
-- serialised.
pub mod Resolver
pub mod Store
pub mod Values
pub mod Kinds
pub mod Reading
pub mod Restart
pub mod Queries
use Prim.Native.String.{String, slice, len}
use text.Mathlib.Text.{starts_with}
use op_move.Base.Texts.{same_text}
use op_move.Base.Same.{same_bytes}
use op_move.Base.{
  ℕ, Bool, true, false, ◌&&◌, not, List, [], ◌∷◌, ◌++◌, Option, none, some, AccountAddress, Address,
  B256, Bytes, ◌==◌, if◌then◌else◌,
}
use op_move.Base.Partial.{◌>>=◌}
use op_move.MoveTypes.{TypeTags}
use op_move.Storage.Db.{DbResult, ok, err, panicked, expect}
use op_move.Storage.Db
use op_move.Storage.Keys.{to_be_bytes}

pub record StructTag : Type 0 where
  pub address : AccountAddress
  pub module_name : String
  pub name : String
  pub type_args : TypeTags

-- The changes of the Move VM.
pub data Op : Type 0 where
  new modify : Bytes → Op
  delete : Op

pub record AccountChanges : Type 0 where
  pub modules : List (String × Op)
  pub resources : List (StructTag × Op)

abbrev pub ChangeSet : Type 0
ChangeSet = List (AccountAddress × AccountChanges)

-- `TreeKey`, with a `StateKey` by its encoding, and `TreeValue`, with a `StateValue` by its bytes.
pub data TreeKey : Type 0 where
  state_key : Bytes → TreeKey
  evm : Address → TreeKey

pub data TreeValue : Type 0 where
  deleted : TreeValue
  state_value : Bytes → TreeValue
  evm_value : Bytes → TreeValue

-- What is used of the libraries: state keys and values of Aptos, the hash, hexadecimal addresses.
pub record Encodings : Type 0 where
  pub module_key : AccountAddress → String → Bytes
  pub resource_state_key : AccountAddress → StructTag → Option Bytes
  pub keccak256 : Bytes → B256
  pub from_hex : String → Option Address
  pub state_value_bytes : Bytes → Bytes
  pub state_value_of : Bytes → Option Bytes

-- `TreeKey` has the derived equality.
unfoldable pub same_key : TreeKey → TreeKey → Bool
unfolding same_bytes
same_key (TreeKey.state_key xs) (TreeKey.state_key ys) = same_bytes xs ys
same_key (TreeKey.state_key xs) (TreeKey.evm b) = false
same_key (TreeKey.evm a) (TreeKey.state_key ys) = false
same_key (TreeKey.evm a) (TreeKey.evm b) = a == b

-- `HashMap<TreeKey, TreeValue>` and `collect`: a later value under a key replaces the earlier one.
abbrev pub TreeValues : Type 0
TreeValues = List (TreeKey × TreeValue)

abbrev pub without : TreeKey → TreeValues → TreeValues
without k [] = []
without k ((j, v) ∷ m) = if same_key j k then without k m else (j, v) ∷ without k m

unfoldable pub collect_onto : TreeValues → TreeValues → TreeValues
collect_onto m [] = m
collect_onto m ((k, v) ∷ entries) = collect_onto ((k, v) ∷ without k m) entries

-- `is_evm_storage_or_account_key` and `evm_key_address`.
abbrev pub account_info_prefix : String
account_info_prefix = "Account_"

unfoldable pub is_evm_storage_or_account_key : StructTag → Bool
is_evm_storage_or_account_key k =
    (k.address == 1) && (same_text k.module_name "evm" && starts_with k.name account_info_prefix)

unfoldable pub evm_key_address : Encodings → StructTag → Option Address
unfolding is_evm_storage_or_account_key
evm_key_address lib k =
    if is_evm_storage_or_account_key k
    then lib.from_hex (slice k.name (len account_info_prefix) (len k.name))
    else none

-- `key_hash` and `serialize`.
unfoldable pub key_hash : Encodings → TreeKey → B256
unfolding to_be_bytes
key_hash lib (TreeKey.state_key bytes) = lib.keccak256 bytes
key_hash lib (TreeKey.evm address) = lib.keccak256 (to_be_bytes 20 address)

unfoldable pub serialize : Encodings → TreeValue → Bytes
serialize lib TreeValue.deleted = []
serialize lib (TreeValue.evm_value bytes) = bytes
serialize lib (TreeValue.state_value value) = lib.state_value_bytes value

-- `Op::ok` with the value that it makes.
abbrev pub stored : (Bytes → TreeValue) → Op → TreeValue
stored wrap (Op.new bytes) = wrap bytes
stored wrap (Op.modify bytes) = wrap bytes
stored wrap Op.delete = TreeValue.deleted

unfoldable pub resource_value : StructTag → Op → TreeValue
unfolding is_evm_storage_or_account_key
resource_value k op =
    if is_evm_storage_or_account_key k
    then stored TreeValue.evm_value op
    else stored TreeValue.state_value op

module _ (lib : Encodings) where
  abbrev pub module_entries : AccountAddress → List (String × Op) → TreeValues
  module_entries address [] = []
  module_entries address ((name, op) ∷ modules) =
      (TreeKey.state_key (lib.module_key address name), stored TreeValue.state_value op)
      ∷ module_entries address modules

  abbrev pub or_state_key : Option Address → Option Bytes → Option TreeKey
  or_state_key (some address) bytes = some (TreeKey.evm address)
  or_state_key none none = none
  or_state_key none (some bytes) = some (TreeKey.state_key bytes)

  unfoldable pub resource_key : AccountAddress → StructTag → Option TreeKey
  unfolding evm_key_address
  resource_key address k = or_state_key (evm_key_address lib k) (lib.resource_state_key address k)

  -- A tag without a state key is a panic.
  unfoldable pub resource_entries : AccountAddress → List (StructTag × Op) → Option TreeValues
  unfolding resource_key resource_value
  resource_entries address [] = some []
  resource_entries address ((k, op) ∷ resources) = do
    key ← resource_key address k
    rest ← resource_entries address resources
    some ((key, resource_value k op) ∷ rest)

  unfoldable pub change_entries : ChangeSet → Option TreeValues
  unfolding resource_entries
  change_entries [] = some []
  change_entries ((address, changes) ∷ accounts) = do
    resources ← resource_entries address changes.resources
    rest ← change_entries accounts
    some ((module_entries address changes.modules ++ resources) ++ rest)

  unfoldable pub to_tree_values : ChangeSet → Option TreeValues
  unfolding change_entries collect_onto
  to_tree_values changes = do entries ← change_entries changes; some (collect_onto [] entries)
