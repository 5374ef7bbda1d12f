-- ===== src/Storage/Rocks/Tries/Heights.antt =====
-- The roots by height refine a list of roots that grows at its end.
use mathlib.Core.Path.{subst}
use mathlib.Core.List.{append-nil, append_assoc}
use op_move.Base.{
  ℕ, zero, suc, ◌+◌, ◌^◌, ◌<◌, ◌≡◌, refl, sym, ap, ◌∙◌, List, [], ◌∷◌, ◌++◌, Option, none, some,
  Bytes, B256, ◌==◌, if◌then◌else◌, arith, length, length-append, get_elem?, unwrap_or,
}
use op_move.Base.Same.{same_bytes, same_bytes_iff}
use op_move.Chain.Blocks.Height.{get_elem?-snoc}
use op_move.Storage.Keys.{u64_key, hash_key, same_bytes-to_be_bytes}
use op_move.Storage.Db.{
  DbResult, ok, ◌>>=◌, ColumnFamily, Contents, Put, after_puts, RocksDb, IsRocksDb,
}
use op_move.Storage.Contents.{omap, omap-if}
use op_move.Storage.Rocks.{on_some, hash_of, u64_of}
use op_move.Storage.Rocks.Blocks.{hash_of_lem, u64_of_lem}
use op_move.Storage.Rocks.Tries.{height_key, state_height, push_state_root, root_by_height}

abbrev pub AreRoots : List B256 → Type 0
AreRoots [] = Unit
AreRoots (h ∷ hs) = (h < 256 ^ 32) × AreRoots hs

-- The roots of the heights from 1 on, and the height.
record Holds (c : Contents) (roots : List B256) : Type 0 where
  kept :
      (k : ℕ)
      → suc k < 256 ^ 8
      → c ColumnFamily.state (u64_key (suc k)) ≡ omap hash_key (get_elem? roots k)
  now :
      omap u64_of (c ColumnFamily.state_height height_key)
      ≡ (if length roots == 0 then none else some (ok (length roots)))

height_of :
    (o : Option Bytes) (n : ℕ)
    → omap u64_of o ≡ (if n == 0 then none else some (ok n))
    → (do height ← on_some u64_of o; ok (unwrap_or height 0)) ≡ ok n
height_of none zero e = refl
height_of none (suc n) e = ground arith
height_of (some bytes) zero e = ground arith
height_of (some bytes) (suc n) e = let reads : u64_of bytes ≡ ok (suc n) = ground arith in rw reads

abbrev root_puts : ℕ → B256 → List Put
root_puts height state_root =
    (record {
      family = ColumnFamily.state;
      key = u64_key (height + 1);
      value = hash_key state_root;
    })
    ∷ (record {
      family = ColumnFamily.state_height;
      key = height_key;
      value = u64_key (height + 1);
    })
    ∷ []

empty-Holds : (c : Contents) → ((cf : ColumnFamily) (k : Bytes) → c cf k ≡ none) → Holds c []
empty-Holds c nothing = record {
  kept = λ k l. nothing ColumnFamily.state (u64_key (suc k));
  now = ap (omap u64_of) (nothing ColumnFamily.state_height height_key);
}

unfoldable pub push_all : (r : RocksDb) → r.Handle → List B256 → DbResult r.Handle
push_all r db [] = ok db
push_all r db (root ∷ roots) = do db ← push_state_root r db root; push_all r db roots

module _ (r : RocksDb) (law : IsRocksDb r) where
  state_height_lem :
      (db : r.Handle) (roots : List B256)
      → Holds (r.contents db) roots
      → state_height r db ≡ ok (length roots)
  unfolding state_height
  state_height_lem db roots h =
      rw (law.get db ColumnFamily.state_height height_key)
        (height_of (r.contents db ColumnFamily.state_height height_key) (length roots) h.now)

  module _ (c c' : Contents) (roots : List B256) (root : B256)
      (written : (cf : ColumnFamily) (k : Bytes)
        → c' cf k ≡ after_puts c (root_puts (length roots) root) cf k)
      (h : Holds c roots) (low : length roots + 1 < 256 ^ 8) where
    same_height :
        (k : ℕ)
        → suc k < 256 ^ 8
        → same_bytes (u64_key (length roots + 1)) (u64_key (suc k)) ≡ (length roots == k)
    unfolding u64_key
    same_height k kl = same_bytes-to_be_bytes 8 (length roots + 1) (suc k) low kl ∙ ground arith

    kept_after :
        (k : ℕ)
        → suc k < 256 ^ 8
        → c' ColumnFamily.state (u64_key (suc k)) ≡ omap hash_key (get_elem? (roots ++ root ∷ []) k)
    kept_after k kl =
        written ColumnFamily.state (u64_key (suc k))
        ∙ rw (same_height k kl, h.kept k kl, get_elem?-snoc roots root k)
            (sym (omap-if hash_key (length roots == k) root (get_elem? roots k)))

    now_after : omap u64_of (c' ColumnFamily.state_height height_key) ≡ (
        if length (roots ++ root ∷ []) == 0 then none else some (ok (length (roots ++ root ∷ []))))
    now_after =
        ap (omap u64_of) (written ColumnFamily.state_height height_key)
        ∙ rw
            (
              (same_bytes_iff height_key height_key).1 refl,
              u64_of_lem (length roots + 1) low,
              length-append roots (root ∷ []),
            )
            (ground arith)

    push-Holds : Holds c' (roots ++ root ∷ [])
    push-Holds = record { kept = kept_after; now = now_after }

  push_lem :
      (db : r.Handle) (roots : List B256) (root : B256)
      → Holds (r.contents db) roots
      → length roots + 1 < 256 ^ 8
      → (db' : r.Handle) × (push_state_root r db root ≡ ok db')
        × Holds (r.contents db') (roots ++ root ∷ [])
  unfolding push_state_root
  push_lem db roots root h low =
      let (db', done, after) = law.write db (root_puts (length roots) root) in
      (
        db',
        rw (state_height_lem db roots h) done,
        push-Holds (r.contents db) (r.contents db') roots root after h low,
      )

  push_all_lem :
      (db : r.Handle) (roots more : List B256)
      → Holds (r.contents db) roots
      → length roots + length more < 256 ^ 8
      → (db' : r.Handle) × (push_all r db more ≡ ok db') × Holds (r.contents db') (roots ++ more)
  unfolding push_all
  push_all_lem db roots [] h low = (db, refl, rw append-nil h)
  push_all_lem db roots (root ∷ more) h low =
      let (db1, pushed, held) = push_lem db roots root h (omega arith) in
      let (db2, rest, all) =
        push_all_lem db1 (roots ++ root ∷ []) more held (rw length-append (omega arith)) in
      (
        db2,
        rw pushed rest,
        subst (λ l. Holds (r.contents db2) l) (append_assoc roots (root ∷ []) more) all,
      )

read_root :
    (roots : List B256) (k : ℕ)
    → AreRoots roots
    → on_some hash_of (omap hash_key (get_elem? roots k)) ≡ ok (get_elem? roots k)
read_root [] k h = refl
read_root (root ∷ roots) zero h = rw (hash_of_lem root h.0)
read_root (root ∷ roots) (suc k) h = read_root roots k h.1

found_root :
    (r : RocksDb) (law : IsRocksDb r) (db : r.Handle) (genesis_state_root : B256)
    (roots : List B256)
    → Holds (r.contents db) roots
    → AreRoots roots
    → (k : ℕ) → k < 256 ^ 8
    → root_by_height r genesis_state_root db k ≡ ok (get_elem? (genesis_state_root ∷ roots) k)
unfolding root_by_height
found_root r law db genesis_state_root roots held h zero kl = refl
found_root r law db genesis_state_root roots held h (suc k) kl =
    rw (law.get db ColumnFamily.state (u64_key (suc k)), held.kept k kl, read_root roots k h)
      (ground arith)

-- State roots pushed onto an empty database one after the other are found by height: height 0 has the
-- root of the genesis state, height k the k-th root that was pushed, and every greater height none.
pub root_by_height-push_all :
    (r : RocksDb) (db : r.Handle) (genesis_state_root : B256) (roots : List B256) (k : ℕ)
    → IsRocksDb r
    → ((cf : ColumnFamily) (key : Bytes) → r.contents db cf key ≡ none)
    → AreRoots roots
    → length roots < 256 ^ 8
    → k < 256 ^ 8
    → (db' : r.Handle) × (push_all r db roots ≡ ok db')
      × (root_by_height r genesis_state_root db' k ≡ ok (get_elem? (genesis_state_root ∷ roots) k))
      × (state_height r db' ≡ ok (length roots))
root_by_height-push_all r db genesis_state_root roots k law empty h low kl =
    let (db', pushed, held) =
      push_all_lem r law db [] roots (empty-Holds (r.contents db) empty) (omega arith) in
    (
      db',
      pushed,
      found_root r law db' genesis_state_root roots held h k kl,
      state_height_lem r law db' roots held,
    )
