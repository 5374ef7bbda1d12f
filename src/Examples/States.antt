-- ===== src/Examples/States.antt =====
-- The properties of the state at concrete inputs, over tries that are tables and a store that keeps
-- every table under its number.
use Prim.Native.String.{String}
use text.Mathlib.TextEquality.{eq_iff}
use op_move.Base.Texts.{same_text}
use op_move.Base.{
  arith, ℕ, ◌+◌, ◌≡◌, ◌≢◌, refl, sym, ap, ◌∙◌, Bool, true, false, ◌&&◌, List, [], ◌∷◌, ◌++◌, Option,
  none, some, AccountAddress, B256, Bytes, HashMap, lookup, insert, remove, lookup-insert,
  lookup-remove, ◌==◌, if◌then◌else◌, ==_iff, eq_refl, length, get_elem?,
}
use op_move.Chain.Blocks.Height.{get_elem?-snoc}
use op_move.MoveTypes.{TypeTags}
use op_move.Storage.Db.{DbResult, ok, err}
use op_move.Storage.Keys.{to_be_bytes}
use op_move.State.{
  Encodings, ChangeSet, Op, StructTag, TreeKey, TreeValue, TreeValues, same_key, key_hash,
  resource_key, resource_value, resource_entries, change_entries, evm_key_address,
  is_evm_storage_or_account_key,
}
use op_move.State.Store.{MerkleTrie, RocksDbState, open_state, insert_change_set}
use op_move.State.Resolver.{get_resource}
use op_move.State.Values.{IsApart, last_of, non_empty, read_after, IsMerkleTrie}
use op_move.State.Kinds.{IsEncodings}
use op_move.State.Reading.{resource_after, get_resource-insert_change_set}
use op_move.State.Queries.{nonce_at, balance_at, nonce_at-push_all}
use op_move.Storage.Db.{Put}
use op_move.Storage.Rocks.Tries.Heights.{push_all}
use op_move.Execution.Canonical.{Machine}
use op_move.Execution.Simulate.{quick_get_nonce, quick_get_eth_balance}
use op_move.Examples.Databases.{rocks, rocks-IsRocksDb, held_nothing}
use op_move.Examples.Sessions.{session_over, machine_from}
use op_move.Examples.Nonces.{nonce_vm, fresh}
use op_move.State.Restart.{apply_all, open_state-apply_all}

abbrev Store : Type 0
Store = List (HashMap Bytes) × Option B256

abbrev trie_of : Store → Option (HashMap Bytes) → DbResult (HashMap Bytes × Store)
trie_of db none = err 0
trie_of db (some m) = ok (m, db)

abbrev placed : B256 → Option Bytes → HashMap Bytes → HashMap Bytes
placed key none m = remove key m
placed key (some value) m = insert key value m

abbrev tables : MerkleTrie
tables = record {
  Db = Store;
  Trie = HashMap Bytes × Store;
  root = λ db. ok db.1;
  put_root = λ db root. ok (db.0, some root);
  new_trie = λ db. ([], db);
  from_root = λ db root. trie_of db (get_elem? db.0 root);
  db_of = λ trie. trie.1;
  get_bytes = λ trie key. ok (lookup key trie.0);
  insert_bytes = λ trie key value. ok (placed key (non_empty value) trie.0, trie.1);
  root_hash = λ trie. ok (length trie.1.0, (trie.0, (trie.1.0 ++ (trie.0 ∷ []), trie.1.1)));
}

ok_if : (b : Bool) (x y : Option Bytes) → (ok (if b then x else y)) ≡ (if b then ok x else ok y)
ok_if true x y = refl
ok_if false x y = refl

lookup-placed :
    (key j : B256) (o : Option Bytes) (m : HashMap Bytes)
    → ok (lookup j (placed key o m)) ≡ (if key == j then ok o else ok (lookup j m))
lookup-placed key j none m = ap ok (lookup-remove key j m) ∙ ok_if (key == j) none (lookup j m)
lookup-placed key j (some value) m =
    ap ok (lookup-insert key j value m) ∙ ok_if (key == j) (some value) (lookup j m)

last_table :
    (l : List (HashMap Bytes)) (m : HashMap Bytes) (r : Option B256)
    → trie_of (l ++ (m ∷ []), r) (get_elem? (l ++ (m ∷ [])) (length l)) ≡ ok (m, (l ++ (m ∷ []), r))
last_table l m r =
    ap (trie_of (l ++ (m ∷ []), r))
      (get_elem?-snoc l m (length l) ∙ own_place (length l == length l) (eq_refl (length l)))
  where
    own_place : (b : Bool) → b ≡ true → (if b then some m else get_elem? l (length l)) ≡ some m
    own_place b e = rw e refl

same_table :
    (db db' : Store) (o : Option (HashMap Bytes)) (trie : HashMap Bytes × Store)
    → trie_of db o ≡ ok trie
    → (trie' : HashMap Bytes × Store) × (trie_of db' o ≡ ok trie')
      × ((j : B256) → ok (lookup j trie'.0) ≡ ok (lookup j trie.0))
same_table db db' none trie e = cc
same_table db db' (some m) trie e =
    let same : (m, db) ≡ trie = cc in ((m, db'), refl, λ j. ap (λ x. ok (lookup j x.0)) same)

tables-IsMerkleTrie : IsMerkleTrie tables
tables-IsMerkleTrie = record {
  new_trie = λ db j. refl;
  insert = λ trie key value. (
    (placed key (non_empty value) trie.0, trie.1),
    refl,
    λ j. lookup-placed key j (non_empty value) trie.0,
  );
  root_hash = λ trie. (
    length trie.1.0,
    (trie.0, (trie.1.0 ++ (trie.0 ∷ []), trie.1.1)),
    refl,
    (λ j. refl),
    (trie.0, (trie.1.0 ++ (trie.0 ∷ []), trie.1.1)),
    last_table trie.1.0 trie.0 trie.1.1,
    λ j. refl,
  );
  put_root = λ db root trie e.
      let (opened, opens, like) = same_table db (db.0, some root) (get_elem? db.0 root) trie e in
      ((db.0, some root), refl, refl, opened, opens, like);
}

-- One type of resources has a state key.
abbrev coin : StructTag
coin = record { address = 1; module_name = "coin"; name = "Coin"; type_args = TypeTags.nil }

abbrev is_coin : StructTag → Bool
is_coin k = (k.address == 1) && (same_text k.module_name "coin" && same_text k.name "Coin")

abbrev coin_key : Bool → TypeTags → Option Bytes
coin_key true TypeTags.nil = some (1 ∷ [])
coin_key true (TypeTags.cons tag tags) = none
coin_key false tags = none

abbrev sum : Bytes → ℕ
sum [] = 0
sum (b ∷ bytes) = b + sum bytes

abbrev tail_of : Bytes → Option Bytes
tail_of [] = none
tail_of (b ∷ bytes) = some bytes

abbrev encodings : Encodings
encodings = record {
  module_key = λ address name. 0 ∷ [];
  resource_state_key = λ address k. coin_key (is_coin k) k.type_args;
  keccak256 = sum;
  from_hex = λ text. some 7;
  state_value_bytes = λ value. 9 ∷ value;
  state_value_of = tail_of;
}

and_true : (a b c : Bool) → (a && (b && c)) ≡ true → (a ≡ true) × (b ≡ true) × (c ≡ true)
and_true true true true e = (refl, refl, refl)
and_true true true false e = cc
and_true true false c e = cc
and_true false b c e = cc

is_coin_lem :
    (address : AccountAddress) (module_name name : String) (tags : TypeTags) (key : Bytes)
    → coin_key
        (is_coin
          (record { address = address; module_name = module_name; name = name; type_args = tags }))
        tags
      ≡ some key
    → record { address = address; module_name = module_name; name = name; type_args = tags } ≡ coin
is_coin_lem address module_name name tags key e =
    at_test
      (is_coin
        (record { address = address; module_name = module_name; name = name; type_args = tags }))
      refl tags e
  where
    at_test :
        (b : Bool)
        → ((address == 1) && (same_text module_name "coin" && same_text name "Coin")) ≡ b
        → (tags : TypeTags) → coin_key b tags ≡ some key
        → record { address = address; module_name = module_name; name = name; type_args = tags }
          ≡ coin
    at_test true eb TypeTags.nil h =
        let (p, q, r) =
          and_true (address == 1) (same_text module_name "coin") (same_text name "Coin") eb in
        cc ((==_iff address 1).0 p, (eq_iff module_name "coin").0 q, (eq_iff name "Coin").0 r)
    at_test true eb (TypeTags.cons tag rest) h = cc
    at_test false eb rest h = cc

encodings-IsEncodings : IsEncodings encodings
encodings-IsEncodings = record {
  state_value = λ value. refl;
  state_value_some = λ value. refl;
  resource = λ a b k j key e f.
      is_coin_lem k.address k.module_name k.name k.type_args key e
      ∙ sym (is_coin_lem j.address j.module_name j.name j.type_args key f);
  modules = λ a b name k e. no_module (is_coin k) k.type_args e;
}
  where
    no_module : (b : Bool) (tags : TypeTags) → coin_key b tags ≢ some (0 ∷ [])
    no_module true TypeTags.nil e = cc
    no_module true (TypeTags.cons tag tags) e = cc
    no_module false tags e = cc

abbrev account_tag : StructTag
account_tag = record {
  address = 1;
  module_name = "evm";
  name = "Account_07";
  type_args = TypeTags.nil;
}

abbrev first_changes : ChangeSet
first_changes =
    (
      1,
      record {
        modules = ("coin", Op.new (3 ∷ [])) ∷ [];
        resources = (coin, Op.new (5 ∷ [])) ∷ (account_tag, Op.modify (6 ∷ [])) ∷ [];
      },
    )
    ∷ []

abbrev second_changes : ChangeSet
second_changes = (1, record { modules = []; resources = (coin, Op.delete) ∷ [] }) ∷ []

abbrev first_entries : TreeValues
first_entries =
    (TreeKey.state_key (0 ∷ []), TreeValue.state_value (3 ∷ []))
    ∷ (TreeKey.state_key (1 ∷ []), TreeValue.state_value (5 ∷ []))
    ∷ (TreeKey.evm 7, TreeValue.evm_value (6 ∷ []))
    ∷ []

abbrev second_entries : TreeValues
second_entries = (TreeKey.state_key (1 ∷ []), TreeValue.deleted) ∷ []

change_entries-first : change_entries encodings first_changes ≡ some first_entries
unfolding change_entries resource_entries resource_key resource_value evm_key_address
    is_evm_storage_or_account_key
change_entries-first = refl

change_entries-second : change_entries encodings second_changes ≡ some second_entries
unfolding change_entries resource_entries resource_key resource_value evm_key_address
    is_evm_storage_or_account_key
change_entries-second = refl

account_key : resource_key encodings 1 account_tag ≡ some (TreeKey.evm 7)
unfolding resource_key evm_key_address is_evm_storage_or_account_key
account_key = refl

account-IsApart : IsApart encodings (TreeKey.evm 7) first_entries
unfolding key_hash same_key to_be_bytes
account-IsApart = (refl, (refl, (refl, tt)))

coin-IsApart : IsApart encodings (TreeKey.state_key (1 ∷ [])) (first_entries ++ second_entries)
unfolding key_hash same_key to_be_bytes
coin-IsApart = (refl, (refl, (refl, (refl, tt))))

get_resource-insert_change_set_example :
    (root : B256) × (trie' : HashMap Bytes × Store) × (insert_change_set tables encodings
        ([], ([], none))
        first_changes
      ≡ ok (root, trie'))
    × (get_resource tables encodings trie' 1 account_tag
        ≡ resource_after
            (last_of (TreeKey.evm 7) first_entries)
            (get_resource tables encodings ([], ([], none)) 1 account_tag))
get_resource-insert_change_set_example =
    get_resource-insert_change_set tables encodings ([], ([], none)) first_changes first_entries 1
      account_tag (TreeKey.evm 7) tables-IsMerkleTrie encodings-IsEncodings change_entries-first
      account_key account-IsApart

open_state-apply_all_example :
    (start : RocksDbState tables encodings) × (open_state tables encodings ([], none) ≡ ok start)
    × (st : RocksDbState tables encodings) × (apply_all tables encodings start
          (first_changes ∷ second_changes ∷ [])
        ≡ ok st)
    × (again : RocksDbState tables encodings) × (open_state tables encodings st.db ≡ ok again)
    × (tables.get_bytes st.resolver (key_hash encodings (TreeKey.state_key (1 ∷ [])))
        ≡ read_after encodings
            (last_of (TreeKey.state_key (1 ∷ [])) (first_entries ++ second_entries))
            (ok none))
    × (tables.get_bytes again.resolver (key_hash encodings (TreeKey.state_key (1 ∷ [])))
        ≡ read_after encodings
            (last_of (TreeKey.state_key (1 ∷ [])) (first_entries ++ second_entries))
            (ok none))
open_state-apply_all_example =
    open_state-apply_all tables encodings ([], none) (first_changes ∷ second_changes ∷ [])
      (first_entries ++ second_entries) (TreeKey.state_key (1 ∷ [])) tables-IsMerkleTrie refl
      (
        first_entries,
        second_entries,
        change_entries-first,
        (second_entries, [], change_entries-second, refl, refl),
        refl,
      )
      coin-IsApart

abbrev node_machine : HashMap Bytes × Store → Machine (session_over nonce_vm)
node_machine trie = machine_from {vm = nonce_vm} fresh

-- A height above the two that have roots, so that the answer is from a new trie.
nonce_at-push_all_example :
    (db' : List Put) × (push_all rocks [] (11 ∷ 12 ∷ []) ≡ ok db')
    × (nonce_at tables ([], none) rocks 10 node_machine db' 7 5
        ≡ some (quick_get_nonce (node_machine (tables.new_trie ([], none))) 7))
    × (balance_at tables ([], none) rocks 10 node_machine db' 7 5
        ≡ some (quick_get_eth_balance (node_machine (tables.new_trie ([], none))) 7))
nonce_at-push_all_example =
    nonce_at-push_all tables ([], none) rocks [] 10 nonce_vm (session_over nonce_vm) node_machine
      (11 ∷ 12 ∷ []) 7 5 rocks-IsRocksDb held_nothing (omega arith, (omega arith, tt)) (omega arith)
      (omega arith)
