-- ===== src/Storage/Rocks/Memory.antt =====
-- The persistent backend over RocksDB and the memory of blocks answer alike.
use op_move.Base.{
  ℕ, ◌^◌, ◌<◌, ◌≡◌, sym, ap, ◌∙◌, false, List, [], Option, none, some, Bytes, length, get_elem?,
  arith,
}
use op_move.Storage.Db.{ok, ColumnFamily, RocksDb, IsRocksDb, Serde, ReadBack}
use op_move.Storage.Contents.{omap, AreHashes, empty-Holds}
use op_move.Storage.Rocks.{latest_height, query_by_height}
use op_move.Storage.Rocks.Blocks.{
  AreDistinct, add_all, add_all_lem, query_by_height_lem, latest_height_lem,
}
use op_move.Chain.Types.{ExtendedBlock, ExtendedTransaction}
use op_move.Chain.EvMap.{EvMap, IsEvMap}
use op_move.Chain.Blocks
use op_move.Chain.Blocks.{by_height}
use op_move.Chain.Blocks.Height.{AreNumbered, by_height-add_all}
use op_move.Chain.Transactions.{TransactionMemory}
use op_move.Chain.Responses.{
  SharedMemory, block_by_height, from_block_with_transaction_hashes, latest,
}

-- What the memory answers about a chain without its transactions.
pub memory_answer :
    (bm : EvMap ExtendedBlock) (tm : EvMap ExtendedTransaction) (mem : SharedMemory bm tm) (k : ℕ)
    (o : Option ExtendedBlock)
    → by_height bm mem.block_memory k ≡ o
    → block_by_height bm tm mem k false ≡ omap from_block_with_transaction_hashes o
unfolding block_by_height
memory_answer bm tm mem k none e = rw (e, block_by_height)
memory_answer bm tm mem k (some b) e = rw (e, block_by_height)

-- The same numbered chain of blocks with distinct hashes, added to an empty RocksDB and to an empty
-- memory, is found alike: both know the same greatest height, and answer every query of a height
-- without transactions by the same response, or by none.
pub query_by_height-eq-memory :
    (r : RocksDb) (s : Serde ExtendedBlock) (txs : Serde ExtendedTransaction)
    (bm : EvMap ExtendedBlock) (tm : EvMap ExtendedTransaction)
    (transactions : TransactionMemory tm) (db : r.Handle) (bs : List ExtendedBlock) (k : ℕ)
    → IsRocksDb r
    → ReadBack s bs
    → IsEvMap bm
    → ((cf : ColumnFamily) (key : Bytes) → r.contents db cf key ≡ none)
    → AreNumbered 0 bs
    → AreHashes bs
    → AreDistinct bs
    → length bs < 256 ^ 8
    → k < 256 ^ 8
    → (db' : r.Handle) × (add_all r s db bs ≡ ok db')
      × (latest_height r s db'
          ≡ ok (
              latest bm tm (record {
                block_memory = Blocks.add_all bm (Blocks.new bm) bs;
                transaction_memory = transactions;
              })))
      × (query_by_height r s txs db' k false
          ≡ ok (
              block_by_height bm tm
                (record {
                  block_memory = Blocks.add_all bm (Blocks.new bm) bs;
                  transaction_memory = transactions;
                })
                k
                false))
unfolding latest
query_by_height-eq-memory r s txs bm tm transactions db bs k law reads evmap empty n hs ds low kl =
    let (db', added, h) =
      add_all_lem r s law db [] bs reads (empty-Holds s.from_slice (r.contents db) empty) n hs
        (omega arith) in
    let (at_k, highest) = by_height-add_all bm bs k evmap n in
    (
      db',
      added,
      latest_height_lem r s law db' bs h low ∙ ap ok (sym highest),
      query_by_height_lem r s law db' bs h hs ds txs k kl
          ∙ ap ok (sym (memory_answer bm tm _ k (get_elem? bs k) at_k)),
    )
