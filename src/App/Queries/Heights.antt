-- ===== src/App/Queries/Heights.antt =====
-- The blocks that tags and numbers name in the memory of a numbered chain.
use op_move.Base.Partial.{◌>>=◌}
use op_move.Base.{ℕ, suc, ◌≡◌, refl, ap, Bool, List, some, arith, length, get_elem?}
use op_move.Chain.Types.{ExtendedBlock, ExtendedTransaction}
use op_move.Chain.EvMap.{EvMap, IsEvMap}
use op_move.Chain.Blocks.{new, add_all, by_height, height}
use op_move.Chain.Blocks.Height.{AreNumbered, by_height-add_all}
use op_move.Chain.Responses.{SharedMemory, block_response, block_by_height, latest}
use op_move.App.Queries.{BlockNumberOrTag, resolve_height, query_by_height}

-- The place of the named block in a chain that ends at the height.
abbrev pub place : BlockNumberOrTag → ℕ → ℕ
place (BlockNumberOrTag.number n) height = n
place BlockNumberOrTag.earliest height = 0
place _ height = height

module _ (bm : EvMap ExtendedBlock) (tm : EvMap ExtendedTransaction) where
  resolved :
      (mem : SharedMemory bm tm) (tag : BlockNumberOrTag) (n : ℕ)
      → latest bm tm mem ≡ some n
      → resolve_height bm tm mem tag ≡ some (place tag n)
  unfolding resolve_height
  resolved mem (BlockNumberOrTag.number h) n e = refl
  resolved mem BlockNumberOrTag.earliest n e = refl
  resolved mem _ n e = e

  -- In a memory of a numbered chain that ends at a height, the query for a number gives the block at
  -- that place of the chain, if there is one, the query for the earliest block its first block, and
  -- the query for any other tag its last block.
  pub query_by_height-add_all :
      (bs : List ExtendedBlock) (mem : SharedMemory bm tm) (tag : BlockNumberOrTag) (n : ℕ)
      (include_transactions : Bool)
      → IsEvMap bm
      → AreNumbered 0 bs
      → length bs ≡ suc n
      → mem.block_memory ≡ add_all bm (new bm) bs
      → query_by_height bm tm mem tag include_transactions ≡ (do
        b ← get_elem? bs (place tag n)
        some (block_response bm tm mem include_transactions b))
  unfolding query_by_height block_by_height latest
  query_by_height-add_all bs mem tag n include_transactions law numbered size held =
      rw (resolved mem tag n ended)
        (ap (λ o. do b ← o; some (block_response bm tm mem include_transactions b)) found)
    where
      ended : height bm mem.block_memory ≡ some n
      ended = rw (held, (by_height-add_all bm bs 0 law numbered).1, size) (ground arith)

      found : by_height bm mem.block_memory (place tag n) ≡ get_elem? bs (place tag n)
      found = rw held ((by_height-add_all bm bs (place tag n) law numbered).0)
