-- ===== src/Storage/Rocks/Blocks.antt =====
-- The blocks in RocksDB refine a list of blocks, and answer like the memory of blocks.
use mathlib.Core.Path.{subst}
use mathlib.Core.List.{append-nil, append_assoc}
use op_move.Base.{
  ℕ, zero, suc, ◌+◌, ◌^◌, ◌<◌, ◌≡◌, refl, ap, false, List, [], ◌∷◌, ◌++◌, Option, none, some, B256,
  Bytes, length, length-append, get_elem?, arith, eq_refl,
}
use op_move.Base.U256.{checked_sub}
use op_move.Storage.Keys.{u64_key, hash_key, from_be_bytes-to_be_bytes}
use op_move.Storage.Db.{
  DbResult, ok, ◌>>=◌, expect, ColumnFamily, RocksDb, IsRocksDb, Serde, ReadBack,
}
use op_move.Storage.Contents.{
  omap, find, AreHashes, Holds, add-Holds, last-Holds, last-Holds_empty, block_puts,
}
use op_move.Storage.Rocks.{
  from_value, on_some, hash_of, u64_of, add, by_hash, latest_height, query_by_height, query_by_hash,
  response_of, and_then,
}
use op_move.Chain.Types.{ExtendedBlock, ExtendedTransaction}
use op_move.Chain.Blocks.Height.{AreNumbered}
use op_move.Chain.Responses.{from_block_with_transaction_hashes}

-- No two blocks have the same hash.
abbrev pub AreDistinct : List ExtendedBlock → Type 0
AreDistinct [] = Unit
AreDistinct (b ∷ bs) = (find b.hash bs ≡ none) × AreDistinct bs

pub find_at :
    (bs : List ExtendedBlock) (k : ℕ) (b : ExtendedBlock)
    → AreDistinct bs
    → get_elem? bs k ≡ some b
    → find b.hash bs ≡ some b
find_at [] k b d e = cc
find_at (a ∷ bs) zero b d e =
    let same : a ≡ b = cc in
    subst (λ x. find x.hash (a ∷ bs) ≡ some x) same (rw (d.0, eq_refl a.hash))
find_at (a ∷ bs) (suc k) b d e = rw (find_at bs k b d.1 e)

pub hash_low :
    (bs : List ExtendedBlock) (k : ℕ) (b : ExtendedBlock)
    → AreHashes bs
    → get_elem? bs k ≡ some b
    → b.hash < 256 ^ 32
hash_low [] k b h e = cc
hash_low (a ∷ bs) zero b h e = let same : a ≡ b = cc in subst (λ x. x.hash < 256 ^ 32) same h.0
hash_low (a ∷ bs) (suc k) b h e = hash_low bs k b h.1 e

read_found :
    (s : Serde ExtendedBlock) (o : Option Bytes) (found : Option ExtendedBlock)
    → omap s.from_slice o ≡ omap (λ b. some b) found
    → on_some (from_value s) o ≡ ok found
read_found s none none e = refl
read_found s none (some b) e = cc
read_found s (some bytes) none e = cc
read_found s (some bytes) (some b) e = let reads : s.from_slice bytes ≡ some b = cc in rw reads

pub at_end :
    (n : ℕ) (bs : List ExtendedBlock)
    → length bs ≡ suc n
    → (b : ExtendedBlock) × (get_elem? bs n ≡ some b)
at_end n [] e = absurd (omega arith)
at_end zero (b ∷ bs) e = (b, refl)
at_end (suc n) (b ∷ bs) e = at_end n bs (omega arith)

-- Hashes and heights read back from their keys.
pub hash_of_lem : (hash : B256) → hash < 256 ^ 32 → hash_of (hash_key hash) ≡ ok hash
unfolding hash_of hash_key
hash_of_lem hash low = ap expect (from_be_bytes-to_be_bytes 32 hash low)

pub u64_of_lem : (n : ℕ) → n < 256 ^ 8 → u64_of (u64_key n) ≡ ok n
unfolding u64_of u64_key
u64_of_lem n low = ap expect (from_be_bytes-to_be_bytes 8 n low)

module _ (r : RocksDb) (s : Serde ExtendedBlock) where
  -- The additions in order.
  unfoldable pub add_all : r.Handle → List ExtendedBlock → DbResult r.Handle
  add_all db [] = ok db
  add_all db (b ∷ bs) = do db ← add r s db b; add_all db bs

  module _ (law : IsRocksDb r) where
    abbrev pub HoldsIn : r.Handle → List ExtendedBlock → Type 0
    HoldsIn db bs = Holds s.from_slice (r.contents db) bs

    add_lem :
        (db : r.Handle) (bs : List ExtendedBlock) (b : ExtendedBlock)
        → ReadBack s (b ∷ [])
        → HoldsIn db bs
        → b.block.header.number ≡ length bs
        → length bs < 256 ^ 8
        → b.hash < 256 ^ 32
        → (db' : r.Handle) × (add r s db b ≡ ok db') × HoldsIn db' (bs ++ b ∷ [])
    unfolding add
    add_lem db bs b reads h number low hl =
        let (value, written, read) = reads.0 in
        let (db', done, after) = law.write db (block_puts value b) in
        (
          db',
          rw written done,
          add-Holds s.from_slice (r.contents db) (r.contents db') bs b value after read number low
              hl h,
        )

    pub add_all_lem :
        (db : r.Handle) (bs cs : List ExtendedBlock)
        → ReadBack s cs
        → HoldsIn db bs
        → AreNumbered (length bs) cs
        → AreHashes cs
        → length bs + length cs < 256 ^ 8
        → (db' : r.Handle) × (add_all db cs ≡ ok db') × HoldsIn db' (bs ++ cs)
    unfolding add_all
    add_all_lem db bs [] reads h n hs low = (db, refl, rw append-nil h)
    add_all_lem db bs (c ∷ cs) reads h n hs low =
        let (db1, added, held) = add_lem db bs c (reads.0, tt) h n.0 (omega arith) hs.0 in
        let (db2, rest, all) =
          add_all_lem db1 (bs ++ c ∷ []) cs reads.1 held
            (subst (λ k. AreNumbered k cs) (rw length-append (omega arith)) n.1) hs.1
            (rw length-append (omega arith)) in
        (db2, rw added rest, subst (λ l. HoldsIn db2 l) (append_assoc bs (c ∷ []) cs) all)

    module _ (db : r.Handle) (bs : List ExtendedBlock) (h : HoldsIn db bs) where
      by_hash_lem : (hash : B256) → hash < 256 ^ 32 → by_hash r s db hash ≡ ok (find hash bs)
      unfolding by_hash
      by_hash_lem hash low = rw (law.get db ColumnFamily.block (hash_key hash)) (
          read_found s (r.contents db ColumnFamily.block (hash_key hash)) (find hash bs)
            (h.blocks hash low))

      module _ (hs : AreHashes bs) (ds : AreDistinct bs) where
        query_found :
            (txs : Serde ExtendedTransaction) (k : ℕ) (o : Option ExtendedBlock)
            → get_elem? bs k ≡ o
            → and_then
                (λ v. (do hash ← hash_of v; query_by_hash r s txs db hash false))
                (omap (λ b. hash_key b.hash) o)
              ≡ ok (omap from_block_with_transaction_hashes o)
        unfolding query_by_hash response_of
        query_found txs k none e = refl
        query_found txs k (some b) e =
            let low = hash_low bs k b hs e in
            rw (hash_of_lem b.hash low, by_hash_lem b.hash low, find_at bs k b ds e)

        pub query_by_height_lem :
            (txs : Serde ExtendedTransaction) (k : ℕ)
            → k < 256 ^ 8
            → query_by_height r s txs db k false
              ≡ ok (omap from_block_with_transaction_hashes (get_elem? bs k))
        unfolding query_by_height
        query_by_height_lem txs k low =
            rw (law.get db ColumnFamily.height (u64_key k), h.heights k low)
              (query_found txs k (get_elem? bs k) refl)

    pub latest_height_lem :
        (db : r.Handle) (bs : List ExtendedBlock)
        → HoldsIn db bs
        → length bs < 256 ^ 8
        → latest_height r s db ≡ ok (checked_sub (length bs) 1)
    unfolding latest_height
    latest_height_lem db [] h low =
        let (entry, got, is_last) = law.last db ColumnFamily.height in
        rw (got, last-Holds_empty s.from_slice (r.contents db) entry h is_last)
    latest_height_lem db (b ∷ bs) h low =
        let (entry, got, is_last) = law.last db ColumnFamily.height in
        let (end, found) = at_end (length bs) (b ∷ bs) refl in
        rw
          (
            got,
            last-Holds s.from_slice (r.contents db) (b ∷ bs) h (length bs) end entry refl low found
                is_last,
            u64_of_lem (length bs) (omega arith),
          )
          (ground arith)
