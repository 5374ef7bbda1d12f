-- ===== src/Storage/Heed/Memory.antt =====
-- The persistent backend over LMDB and the memory of blocks answer alike.
use op_move.Base.{
  ℕ, ◌^◌, ◌<◌, ◌≡◌, sym, ap, ◌∙◌, false, List, [], none, Bytes, length, get_elem?, arith,
}
use op_move.Storage.Db.{ok, ColumnFamily, Serde, ReadBack}
use op_move.Storage.Contents.{AreHashes, empty-Holds}
use op_move.Storage.Rocks.Blocks.{AreDistinct}
use op_move.Storage.Rocks.Memory.{memory_answer}
use op_move.Storage.Heed.{Heed, IsHeed, latest_height, query_by_height}
use op_move.Storage.Heed.Blocks.{add_all, add_all_lem, query_by_height_lem, latest_height_lem}
use op_move.Chain.Types.{ExtendedBlock, ExtendedTransaction}
use op_move.Chain.EvMap.{EvMap, IsEvMap}
use op_move.Chain.Blocks
use op_move.Chain.Blocks.Height.{AreNumbered, by_height-add_all}
use op_move.Chain.Transactions.{TransactionMemory}
use op_move.Chain.Responses.{block_by_height, latest}

-- The same numbered chain of blocks with distinct hashes, added to an empty LMDB and to an empty
-- memory, is found alike: both know the same greatest height, and answer every query of a height
-- without transactions by the same response, or by none.
pub heed_query_by_height-eq-memory :
    (h : Heed) (s : Serde ExtendedBlock) (txs : Serde ExtendedTransaction)
    (bm : EvMap ExtendedBlock) (tm : EvMap ExtendedTransaction)
    (transactions : TransactionMemory tm) (env : h.Env) (bs : List ExtendedBlock) (k : ℕ)
    → IsHeed h
    → ReadBack s bs
    → IsEvMap bm
    → ((cf : ColumnFamily) (key : Bytes) → h.contents env cf key ≡ none)
    → AreNumbered 0 bs
    → AreHashes bs
    → AreDistinct bs
    → length bs < 256 ^ 8
    → k < 256 ^ 8
    → (env' : h.Env) × (add_all h s env bs ≡ ok env')
      × (latest_height h s env'
          ≡ ok (
              latest bm tm (record {
                block_memory = Blocks.add_all bm (Blocks.new bm) bs;
                transaction_memory = transactions;
              })))
      × (query_by_height h s txs env' k false
          ≡ ok (
              block_by_height bm tm
                (record {
                  block_memory = Blocks.add_all bm (Blocks.new bm) bs;
                  transaction_memory = transactions;
                })
                k
                false))
unfolding latest
heed_query_by_height-eq-memory h s txs bm tm transactions env bs k law reads evmap empty n hs ds low
      kl =
    let (env', added, held) =
      add_all_lem h s law env [] bs reads (empty-Holds s.from_slice (h.contents env) empty) n hs
        (omega arith) in
    let (at_k, highest) = by_height-add_all bm bs k evmap n in
    (
      env',
      added,
      latest_height_lem h s law env' bs held hs low ∙ ap ok (sym highest),
      query_by_height_lem h s law env' bs held hs ds txs k kl
          ∙ ap ok (sym (memory_answer bm tm _ k (get_elem? bs k) at_k)),
    )
