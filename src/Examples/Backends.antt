-- ===== src/Examples/Backends.antt =====
-- The properties of the persistent backends at concrete inputs.
use op_move.Base.{
  ℕ, ◌≡◌, refl, Bool, false, ◌||◌, List, [], ◌∷◌, Option, none, some, Bytes, ◌==◌, if◌then◌else◌,
  arith, length, get_elem?,
}
use op_move.Storage.Db.{ok, Put, Serde}
use op_move.Storage.Rocks
use op_move.Storage.Rocks.Memory.{query_by_height-eq-memory}
use op_move.Storage.Rocks.Receipts.{contains-extend_receipts}
use op_move.Storage.Rocks.Tries.{
  get_storage_node, insert_storage_nodes, state_height, root_by_height,
}
use op_move.Storage.Rocks.Tries.Accounts.{in_batch, get_storage_node-insert_storage_nodes}
use op_move.Storage.Rocks.Tries.Heights.{push_all, root_by_height-push_all}
use op_move.Storage.Heed
use op_move.Storage.Heed.Memory.{heed_query_by_height-eq-memory}
use op_move.Chain.Types.{ExtendedBlock, ExtendedTransaction, ExtendedReceipt}
use op_move.Chain.Blocks
use op_move.Chain.EvMap.{EvMap}
use op_move.Chain.Receipts.Seen.{has_receipt}
use op_move.Chain.Responses.{SharedMemory, latest, block_by_height}
use op_move.Examples.Databases.{rocks, rocks-IsRocksDb, lmdb, lmdb-IsHeed, held_nothing}
use op_move.Examples.Maps.{table_map, table_map-IsEvMap}
use op_move.Examples.Outside.{genesis}
use op_move.Examples.Stores.{child, block_map, receipt_of}

-- Blocks by their number, receipts by their hash.
abbrev block_of : Bytes → Option ExtendedBlock
block_of [] = none
block_of (n ∷ bytes) = get_elem? (genesis ∷ child ∷ []) n

abbrev blocks : Serde ExtendedBlock
blocks = record { to_vec = λ b. some (b.block.header.number ∷ []); from_slice = block_of }

abbrev receipt_in : Bytes → Option ExtendedReceipt
receipt_in [] = none
receipt_in (hash ∷ bytes) = some (receipt_of hash)

abbrev receipts : Serde ExtendedReceipt
receipts = record {
  to_vec = λ receipt. some (receipt.transaction_hash ∷ []);
  from_slice = receipt_in;
}

abbrev no_transactions : Serde ExtendedTransaction
no_transactions = record { to_vec = λ tx. none; from_slice = λ bytes. none }

abbrev transaction_map : EvMap ExtendedTransaction
transaction_map = table_map ExtendedTransaction

abbrev memory : SharedMemory block_map transaction_map
memory = record {
  block_memory = Blocks.add_all block_map (Blocks.new block_map) (genesis ∷ child ∷ []);
  transaction_memory = record { transactions = transaction_map.empty };
}

query_by_height-eq-memory_example :
    (db' : List Put) × (Rocks.Blocks.add_all rocks blocks [] (genesis ∷ child ∷ []) ≡ ok db')
    × (Rocks.latest_height rocks blocks db' ≡ ok (latest block_map transaction_map memory))
    × (Rocks.query_by_height rocks blocks no_transactions db' 1 false
        ≡ ok (block_by_height block_map transaction_map memory 1 false))
query_by_height-eq-memory_example =
    query_by_height-eq-memory rocks blocks no_transactions block_map transaction_map
      memory.transaction_memory [] (genesis ∷ child ∷ []) 1 rocks-IsRocksDb
      ((0 ∷ [], refl, refl), ((1 ∷ [], refl, refl), tt)) (table_map-IsEvMap ExtendedBlock)
      held_nothing (refl, (refl, tt)) (omega arith, (omega arith, tt)) (refl, (refl, tt))
      (omega arith) (omega arith)

heed_query_by_height-eq-memory_example :
    (env' : List Put) × (Heed.Blocks.add_all lmdb blocks [] (genesis ∷ child ∷ []) ≡ ok env')
    × (Heed.latest_height lmdb blocks env' ≡ ok (latest block_map transaction_map memory))
    × (Heed.query_by_height lmdb blocks no_transactions env' 1 false
        ≡ ok (block_by_height block_map transaction_map memory 1 false))
heed_query_by_height-eq-memory_example =
    heed_query_by_height-eq-memory lmdb blocks no_transactions block_map transaction_map
      memory.transaction_memory [] (genesis ∷ child ∷ []) 1 lmdb-IsHeed
      ((0 ∷ [], refl, refl), ((1 ∷ [], refl, refl), tt)) (table_map-IsEvMap ExtendedBlock)
      held_nothing (refl, (refl, tt)) (omega arith, (omega arith, tt)) (refl, (refl, tt))
      (omega arith) (omega arith)

contains-extend_receipts_example :
    (db' : List Put) × (old : Bool) × (Rocks.extend_receipts rocks receipts []
        (receipt_of 3 ∷ receipt_of 4 ∷ [])
      ≡ ok db')
    × (Rocks.contains rocks [] 4 ≡ ok old)
    × (Rocks.contains rocks db' 4 ≡ ok (old || has_receipt 4 (receipt_of 3 ∷ receipt_of 4 ∷ [])))
contains-extend_receipts_example =
    contains-extend_receipts rocks receipts [] (receipt_of 3 ∷ receipt_of 4 ∷ []) 4 rocks-IsRocksDb
      ((3 ∷ [], refl, refl), ((4 ∷ [], refl, refl), tt)) (omega arith, (omega arith, tt))
      (omega arith)

get_storage_node-insert_storage_nodes_example :
    (db' : List Put) × (old : Option Bytes) × (insert_storage_nodes rocks 7 []
        ((1 ∷ []) ∷ [])
        ((2 ∷ []) ∷ [])
      ≡ ok db')
    × (get_storage_node rocks 8 [] (1 ∷ []) ≡ ok old)
    × (get_storage_node rocks 8 db' (1 ∷ [])
        ≡ ok (if 7 == 8 then in_batch ((1 ∷ []) ∷ []) ((2 ∷ []) ∷ []) (1 ∷ []) old else old))
get_storage_node-insert_storage_nodes_example =
    get_storage_node-insert_storage_nodes rocks [] 7 8 ((1 ∷ []) ∷ []) ((2 ∷ []) ∷ []) (1 ∷ [])
      rocks-IsRocksDb (omega arith) (omega arith)

root_by_height-push_all_example :
    (db' : List Put) × (push_all rocks [] (11 ∷ 12 ∷ []) ≡ ok db')
    × (root_by_height rocks 10 db' 2 ≡ ok (get_elem? (10 ∷ 11 ∷ 12 ∷ []) 2))
    × (state_height rocks db' ≡ ok (length {A = ℕ} (11 ∷ 12 ∷ [])))
root_by_height-push_all_example =
    root_by_height-push_all rocks [] 10 (11 ∷ 12 ∷ []) 2 rocks-IsRocksDb held_nothing
      (omega arith, (omega arith, tt)) (omega arith) (omega arith)
