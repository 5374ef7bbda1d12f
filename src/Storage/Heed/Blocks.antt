-- ===== src/Storage/Heed/Blocks.antt =====
-- The blocks in LMDB refine a list of blocks.
use mathlib.Core.Path.{subst}
use mathlib.Core.List.{append-nil, append_assoc}
use op_move.Base.{
  ℕ, ◌+◌, ◌^◌, ◌<◌, ◌≡◌, refl, sym, ap, ◌∙◌, false, List, [], ◌∷◌, ◌++◌, Option, none, some, B256,
  Bytes, if◌then◌else◌, length, length-append, get_elem?, arith,
}
use op_move.Base.U256.{checked_sub}
use op_move.Storage.Keys.{u64_key, hash_key, from_be_bytes-to_be_bytes}
use op_move.Storage.Db.{
  DbResult, ok, ◌>>=◌, ColumnFamily, Contents, Put, hits, after_put, Serde, ReadBack,
}
use op_move.Storage.Contents.{omap, find, AreHashes, Holds, add-Holds, last-Holds, last-Holds_empty}
use op_move.Storage.Rocks.{on_some, and_then}
use op_move.Storage.Rocks.Blocks.{AreDistinct, find_at, hash_low, at_end}
use op_move.Storage.Heed.{
  Heed, IsHeed, or_error, decode, decode_hash, decode_u64, get, add, latest_height, query_by_height,
  query_by_hash, response_of, last_height, database,
}
use op_move.Chain.Types.{ExtendedBlock, ExtendedTransaction}
use op_move.Chain.Blocks.Height.{AreNumbered}
use op_move.Chain.Responses.{BlockResponse, from_block_with_transaction_hashes}

put_eq :
    (c d : Contents) (p : Put) (cf : ColumnFamily) (k : Bytes)
    → c cf k ≡ d cf k
    → after_put c p cf k ≡ after_put d p cf k
put_eq c d p cf k e = ap (λ o. if hits p cf k then some p.value else o) e

read_found :
    (h : Heed) (s : Serde ExtendedBlock) (o : Option Bytes) (found : Option ExtendedBlock)
    → omap s.from_slice o ≡ omap (λ b. some b) found
    → on_some (decode h s) o ≡ ok found
read_found h s none none e = refl
read_found h s none (some b) e = cc
read_found h s (some bytes) none e = cc
read_found h s (some bytes) (some b) e = let reads : s.from_slice bytes ≡ some b = cc in rw reads

decode_hash_lem :
    (h : Heed) (hash : B256) → hash < 256 ^ 32 → decode_hash h (hash_key hash) ≡ ok hash
unfolding decode_hash hash_key
decode_hash_lem h hash low =
    ap (or_error h h.decoding_error) (from_be_bytes-to_be_bytes 32 hash low)

decode_u64_lem : (h : Heed) (n : ℕ) → n < 256 ^ 8 → decode_u64 h (u64_key n) ≡ ok n
unfolding decode_u64 u64_key
decode_u64_lem h n low = ap (or_error h h.decoding_error) (from_be_bytes-to_be_bytes 8 n low)

-- A transaction that sees what the environment holds sees the same chain.
Holds-seen :
    (read : Bytes → Option ExtendedBlock) (c d : Contents) (bs : List ExtendedBlock)
    → ((cf : ColumnFamily) (k : Bytes) → d cf k ≡ c cf k)
    → Holds read c bs
    → Holds read d bs
Holds-seen read c d bs same held = record {
  heights = λ k l. same ColumnFamily.height (u64_key k) ∙ held.heights k l;
  only = λ j w e. held.only j w (sym (same ColumnFamily.height j) ∙ e);
  blocks = λ k l. ap (omap read) (same ColumnFamily.block (hash_key k)) ∙ held.blocks k l;
}

module _ (h : Heed) (s : Serde ExtendedBlock) where
  unfoldable pub add_all : h.Env → List ExtendedBlock → DbResult h.Env
  add_all env [] = ok env
  add_all env (b ∷ bs) = do env ← add h s env b; add_all env bs

  abbrev pub HoldsIn : h.Env → List ExtendedBlock → Type 0
  HoldsIn env bs = Holds s.from_slice (h.contents env) bs

  module _ (law : IsHeed h) where
    add_lem :
        (env : h.Env) (bs : List ExtendedBlock) (b : ExtendedBlock)
        → ReadBack s (b ∷ [])
        → HoldsIn env bs
        → b.block.header.number ≡ length bs
        → length bs < 256 ^ 8
        → b.hash < 256 ^ 32
        → (env' : h.Env) × (add h s env b ≡ ok env') × HoldsIn env' (bs ++ b ∷ [])
    unfolding add
    add_lem env bs b reads held number low hl =
        let (value, written, read) = reads.0 in
        let (t, begun, t_holds) = law.write_txn env in
        let (t1, put1, t1_holds) = law.put t ColumnFamily.block (hash_key b.hash) value in
        let (t2, put2, t2_holds) =
          law.put t1 ColumnFamily.height (u64_key b.block.header.number) (hash_key b.hash) in
        let (env', done, after) = law.commit t2 in
        let p1 : Put = record {
          family = ColumnFamily.block;
          key = hash_key b.hash;
          value = value;
        } in
        let p2 : Put = record {
          family = ColumnFamily.height;
          key = u64_key b.block.header.number;
          value = hash_key b.hash;
        } in
        (
          env',
          rw
              (
                begun,
                law.open_database (h.as_read t) ColumnFamily.block,
                written,
                put1,
                law.open_database (h.as_read t1) ColumnFamily.height,
                put2,
              )
              done,
          add-Holds s.from_slice (h.contents env) (h.contents env') bs b value
              (λ cf k.
                after cf k
                ∙ t2_holds cf k
                ∙ put_eq (h.pending t1) (after_put (h.contents env) p1) p2 cf k
                    (t1_holds cf k ∙ put_eq (h.pending t) (h.contents env) p1 cf k (t_holds cf k)))
              read number low hl held,
        )

    pub add_all_lem :
        (env : h.Env) (bs cs : List ExtendedBlock)
        → ReadBack s cs
        → HoldsIn env bs
        → AreNumbered (length bs) cs
        → AreHashes cs
        → length bs + length cs < 256 ^ 8
        → (env' : h.Env) × (add_all env cs ≡ ok env') × HoldsIn env' (bs ++ cs)
    unfolding add_all
    add_all_lem env bs [] reads held n hs low = (env, refl, rw append-nil held)
    add_all_lem env bs (c ∷ cs) reads held n hs low =
        let (env1, added, held1) = add_lem env bs c (reads.0, tt) held n.0 (omega arith) hs.0 in
        let (env2, rest, all) =
          add_all_lem env1 (bs ++ c ∷ []) cs reads.1 held1
            (subst (λ k. AreNumbered k cs) (rw length-append (omega arith)) n.1) hs.1
            (rw length-append (omega arith)) in
        (env2, rw added rest, subst (λ l. HoldsIn env2 l) (append_assoc bs (c ∷ []) cs) all)

    module _ (env : h.Env) (bs : List ExtendedBlock) (held : HoldsIn env bs) where
      by_hash_lem :
          (t : h.RoTxn)
          → ((cf : ColumnFamily) (k : Bytes) → h.seen t cf k ≡ h.contents env cf k)
          → (hash : B256) → hash < 256 ^ 32
          → get h (decode h s) t ColumnFamily.block (hash_key hash) ≡ ok (find hash bs)
      by_hash_lem t sees hash low =
          rw (law.get t ColumnFamily.block (hash_key hash), sees ColumnFamily.block (hash_key hash))
            (read_found h s (h.contents env ColumnFamily.block (hash_key hash)) (find hash bs)
              (held.blocks hash low))

      module _ (hs : AreHashes bs) (ds : AreDistinct bs) where
        query_by_hash_lem :
            (txs : Serde ExtendedTransaction) (k : ℕ) (b : ExtendedBlock)
            → get_elem? bs k ≡ some b
            → query_by_hash h s txs env b.hash false
              ≡ ok (some (from_block_with_transaction_hashes b))
        unfolding query_by_hash response_of
        query_by_hash_lem txs k b e =
            let (t, begun, sees) = law.read_txn env in
            let low = hash_low bs k b hs e in
            rw
              (
                begun,
                law.open_database t ColumnFamily.block,
                by_hash_lem t sees b.hash low,
                find_at bs k b ds e,
                law.commit_read t,
              )
              refl

        -- A query by height, whatever the query by hash is.
        through_hash :
            (k : ℕ) (o : Option ExtendedBlock) (query : B256 → DbResult (Option BlockResponse))
            → get_elem? bs k ≡ o
            → k < 256 ^ 8
            → (do
              t ← h.read_txn env
              _ ← database h t ColumnFamily.height
              hash ← get h (decode_hash h) t ColumnFamily.height (u64_key k)
              and_then (λ hash. (do _ ← h.commit_read t; query hash)) hash)
              ≡ and_then (λ b. query b.hash) o
        through_hash k none query e low =
            let (t, begun, sees) = law.read_txn env in
            rw
              (
                begun,
                law.open_database t ColumnFamily.height,
                law.get t ColumnFamily.height (u64_key k),
                sees ColumnFamily.height (u64_key k),
                held.heights k low,
                e,
              )
              refl
        through_hash k (some b) query e low =
            let (t, begun, sees) = law.read_txn env in
            rw
              (
                begun,
                law.open_database t ColumnFamily.height,
                law.get t ColumnFamily.height (u64_key k),
                sees ColumnFamily.height (u64_key k),
                held.heights k low,
                e,
                decode_hash_lem h b.hash (hash_low bs k b hs e),
                law.commit_read t,
              )
              refl

        found_lem :
            (txs : Serde ExtendedTransaction) (k : ℕ) (o : Option ExtendedBlock)
            → get_elem? bs k ≡ o
            → and_then (λ b. query_by_hash h s txs env b.hash false) o
              ≡ ok (omap from_block_with_transaction_hashes o)
        found_lem txs k none e = refl
        found_lem txs k (some b) e = query_by_hash_lem txs k b e

        pub query_by_height_lem :
            (txs : Serde ExtendedTransaction) (k : ℕ)
            → k < 256 ^ 8
            → query_by_height h s txs env k false
              ≡ ok (omap from_block_with_transaction_hashes (get_elem? bs k))
        unfolding query_by_height
        query_by_height_lem txs k low =
            through_hash k (get_elem? bs k) (λ hash. query_by_hash h s txs env hash false) refl low
            ∙ found_lem txs k (get_elem? bs k) refl

    pub latest_height_lem :
        (env : h.Env) (bs : List ExtendedBlock)
        → HoldsIn env bs
        → AreHashes bs
        → length bs < 256 ^ 8
        → latest_height h s env ≡ ok (checked_sub (length bs) 1)
    unfolding latest_height last_height
    latest_height_lem env [] held hs low =
        let (t, begun, sees) = law.read_txn env in
        let (entry, got, is_last) = law.last t ColumnFamily.height in
        rw
          (
            begun,
            law.open_database t ColumnFamily.height,
            got,
            last-Holds_empty s.from_slice (h.seen t) entry
                (Holds-seen s.from_slice (h.contents env) (h.seen t) [] sees held) is_last,
            law.commit_read t,
          )
          refl
    latest_height_lem env (b ∷ bs) held hs low =
        let (t, begun, sees) = law.read_txn env in
        let (entry, got, is_last) = law.last t ColumnFamily.height in
        let (end, found) = at_end (length bs) (b ∷ bs) refl in
        rw
          (
            begun,
            law.open_database t ColumnFamily.height,
            got,
            last-Holds s.from_slice (h.seen t) (b ∷ bs)
                (Holds-seen s.from_slice (h.contents env) (h.seen t) (b ∷ bs) sees held) (length bs)
                end entry refl low found is_last,
            decode_u64_lem h (length bs) (omega arith),
            decode_hash_lem h end.hash (hash_low (b ∷ bs) (length bs) end hs found),
            law.commit_read t,
          )
          (ground arith)
