-- ===== src/Examples/Evm.antt =====
-- The storage of the EVM, the Solidity ABI and the queries, on concrete values.
use op_move.Base.{
  ℕ, ◌+◌, ◌≡◌, refl, ◌∙◌, sym, ap, Bool, true, false, [], ◌∷◌, Option, none, some, Address, Bytes,
  HashMap, lookup, insert, remove, lookup-insert, lookup-remove, arith, ◌==◌, if◌then◌else◌,
}
use op_move.MoveTypes.{TypeTags, MoveValue, MoveValues}
use op_move.Chain.Types.{ExtendedBlock, ExtendedTransaction}
use op_move.Chain.Blocks.{new, add_all}
use op_move.Chain.Responses.{SharedMemory, block_response}
use op_move.App.Queries.{BlockNumberOrTag, query_by_height}
use op_move.App.Queries.Heights.{query_by_height-add_all}
use op_move.EvmExt.Storage.{
  EthTrie, StorageDb, StorageTrieChanges, EvmAccount, storage_changes, for_account, insert_slots,
  insert_slot, commit, add_account, add_state, add_states, with_trie_changes, merged, add_changes,
  extract_storage_changes, StorageTriesChanges,
}
use op_move.EvmExt.Storage.Sessions.{recorded_root, extract_storage_changes-last}
use op_move.EvmExt.Storage.Slots.{IsEthTrie, slot, slot-insert_slot}
use op_move.EvmExt.Solidity.{
  TypedLayout, TypedLayouts, SolValue, SolValues, SolType, SolTypes, layout_to_sol_type,
}
use op_move.EvmExt.Solidity.Typed.{HasType}
use op_move.EvmExt.Solidity.Encoding.{move_value_to_sol_value}
use op_move.EvmExt.Solidity.Decoding.{sol_to_value}
use op_move.EvmExt.Solidity.Signers.{HasNoSigner, sol_to_value-HasNoSigner}
use op_move.EvmExt.Solidity.RoundTrip.{sol_to_value-move_value_to_sol_value}
use op_move.Examples.Maps.{table_map, table_map-IsEvMap}
use op_move.Examples.Outside.{genesis}
use op_move.Examples.Stores.{child}

-- Tries as tables, whose root is the sum of their values.
abbrev sum : HashMap Bytes → ℕ
sum [] = 0
sum ((k, []) ∷ entries) = sum entries
sum ((k, b ∷ bytes) ∷ entries) = b + sum entries

abbrev first_byte : Bytes → Option ℕ
first_byte [] = none
first_byte (b ∷ bytes) = some b

abbrev table_trie : EthTrie
table_trie = record {
  Trie = HashMap Bytes;
  empty_trie = [];
  from_root = λ nodes root. some nodes;
  get_bytes = λ trie key. some (lookup key trie);
  insert_bytes = λ trie key value. some (insert key value trie);
  remove_key = λ trie key. some (remove key trie);
  changed_nodes = λ trie. some (sum trie, trie);
  keccak256 = λ index. index + 1;
  encode_word = λ value. value ∷ [];
  decode_word = first_byte;
}

same : {A : Type 0} {a b : A} → some a ≡ some b → a ≡ b
same e = cc

some_if :
    {A : Type 0} (b : Bool) (x y : A) → some (if b then x else y) ≡ (if b then some x else some y)
some_if true x y = refl
some_if false x y = refl

table_trie-IsEthTrie : IsEthTrie table_trie
table_trie-IsEthTrie = record {
  get-insert = λ trie key other value h.
      ap (λ t. some (lookup other t)) (sym (same h))
      ∙ ap some (lookup-insert key other value trie)
      ∙ some_if (key == other) (some value) (lookup other trie);
  get-remove = λ trie key other h.
      ap (λ t. some (lookup other t)) (sym (same h))
      ∙ ap some (lookup-remove key other trie)
      ∙ some_if (key == other) none (lookup other trie);
  decode-encode = λ value. refl;
}

inserted : insert_slot table_trie [] 3 7 ≡ some ((4, 7 ∷ []) ∷ [])
unfolding insert_slot
inserted = refl

slot-insert_slot_example :
    slot table_trie ((4, 7 ∷ []) ∷ []) 3 ≡ (if 3 == 3 then some 7 else slot table_trie [] 3)
slot-insert_slot_example = slot-insert_slot table_trie table_trie-IsEthTrie [] 3 3 7 refl inserted

-- Three calls: two write different slots of the account 5, the second after the account 6, and the
-- third only the account 6. The root of the account 5 counts the second call only.
abbrev writes : ℕ → ℕ → EvmAccount
writes index value = record {
  is_touched = true;
  is_selfdestructed = false;
  changed_storage_slots = (index, value) ∷ [];
}

abbrev untouched : EvmAccount
untouched = record { is_touched = false; is_selfdestructed = false; changed_storage_slots = [] }

abbrev nothing_stored : Address → StorageDb
nothing_stored address = record { root = none; nodes = [] }

abbrev all_changes : StorageTriesChanges
all_changes =
    (5, record { root = 20; trie_diff = (2, 10 ∷ []) ∷ (3, 20 ∷ []) ∷ [] })
    ∷ (6, record { root = 30; trie_diff = (4, 3 ∷ []) ∷ (5, 30 ∷ []) ∷ [] })
    ∷ []

three_calls :
    extract_storage_changes table_trie nothing_stored (
      ((5, writes 1 10) ∷ [])
      ∷ ((6, writes 3 3) ∷ (5, writes 2 20) ∷ [])
      ∷ ((6, writes 4 30) ∷ (5, untouched) ∷ [])
      ∷ [])
    ≡ some all_changes
unfolding extract_storage_changes add_states add_state add_account storage_changes for_account
    insert_slots insert_slot commit with_trie_changes merged add_changes
three_calls = refl

extract_storage_changes-last_example :
    (changes : StorageTrieChanges) × (storage_changes table_trie (nothing_stored 5) (writes 2 20)
      ≡ some changes)
    × (recorded_root 5 all_changes ≡ some changes.root)
extract_storage_changes-last_example =
    extract_storage_changes-last table_trie nothing_stored (((5, writes 1 10) ∷ []) ∷ [])
      (((6, writes 4 30) ∷ (5, untouched) ∷ []) ∷ []) 5 (writes 2 20) ((6, writes 3 3) ∷ []) [] refl
      tt ((refl, (refl, tt)), tt) three_calls

-- A struct of an address and numbers.
abbrev pair_layout : TypedLayout
pair_layout = TypedLayout.struct 2 "m" "Pair" TypeTags.nil (
    TypedLayouts.cons TypedLayout.address
      (TypedLayouts.cons (TypedLayout.vector TypedLayout.u16) TypedLayouts.nil))

abbrev pair : MoveValue
pair = MoveValue.struct (
    MoveValues.cons (MoveValue.address 9) (
      MoveValues.cons (MoveValue.vector (MoveValues.cons (MoveValue.u16 300) MoveValues.nil))
        MoveValues.nil))

abbrev pair_type : SolType
pair_type =
    SolType.tuple
      (SolTypes.cons SolType.address (SolTypes.cons (SolType.array (SolType.uint 16)) SolTypes.nil))

pair-HasType : layout_to_sol_type pair_layout ≡ some pair_type
unfolding layout_to_sol_type
pair-HasType = refl

sol_to_value-move_value_to_sol_value_example :
    (sv : SolValue) × (move_value_to_sol_value pair pair_layout ≡ some sv)
    × HasType sv pair_type
    × (sol_to_value sv pair_layout ≡ some pair)
sol_to_value-move_value_to_sol_value_example =
    sol_to_value-move_value_to_sol_value pair pair_layout pair_type
      (refl, refl, refl, (omega arith, ((omega arith, tt), tt))) pair-HasType

abbrev sol_addresses : SolValue
sol_addresses = SolValue.array (SolValues.cons (SolValue.address 9) SolValues.nil)

abbrev addresses : MoveValue
addresses = MoveValue.vector (MoveValues.cons (MoveValue.address 9) MoveValues.nil)

decoded_addresses :
    sol_to_value sol_addresses (TypedLayout.vector TypedLayout.address) ≡ some addresses
unfolding sol_to_value
decoded_addresses = refl

sol_to_value-HasNoSigner_example : HasNoSigner addresses
sol_to_value-HasNoSigner_example =
    sol_to_value-HasNoSigner sol_addresses (TypedLayout.vector TypedLayout.address) addresses
      decoded_addresses

-- A chain of two blocks.
abbrev two_blocks : SharedMemory (table_map ExtendedBlock) (table_map ExtendedTransaction)
two_blocks = record {
  block_memory =
      add_all (table_map ExtendedBlock) (new (table_map ExtendedBlock)) (genesis ∷ child ∷ []);
  transaction_memory = record { transactions = (table_map ExtendedTransaction).empty };
}

query_by_height-add_all_example :
    query_by_height
      (table_map ExtendedBlock)
      (table_map ExtendedTransaction)
      two_blocks
      BlockNumberOrTag.safe
      false
    ≡ some (
        block_response
          (table_map ExtendedBlock)
          (table_map ExtendedTransaction)
          two_blocks
          false
          child)
query_by_height-add_all_example =
    query_by_height-add_all (table_map ExtendedBlock) (table_map ExtendedTransaction)
      (genesis ∷ child ∷ []) two_blocks BlockNumberOrTag.safe 1 false
      (table_map-IsEvMap ExtendedBlock) (refl, (refl, tt)) refl refl
