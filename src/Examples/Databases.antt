-- ===== src/Examples/Databases.antt =====
-- The persistent backends on a database that is a list of puts.
use mathlib.Core.Path.{subst}
use op_move.Base.{
  ◌≡◌, refl, sym, ap, ◌∙◌, true, false, ◌&&◌, List, [], ◌∷◌, Option, none, some, Bytes, ◌==◌,
  if◌then◌else◌, arith, inl, inr, Bool-cases,
}
use op_move.Base.Same.{same_bytes, same_bytes_iff}
use op_move.Storage.Keys.{lex_le}
use op_move.Storage.Heed.{Heed, IsHeed}
use op_move.Storage.Db.{
  ok, ColumnFamily, Put, Contents, family_index, after_put, after_puts, IsLast, RocksDb, IsRocksDb,
}

pub held : List Put → Contents
held [] = λ cf k. none
held (p ∷ puts) = after_put (held puts) p

pub pushed : List Put → List Put → List Put
pushed puts [] = puts
pushed puts (p ∷ batch) = pushed (p ∷ puts) batch

abbrev greater : Put → Option (Bytes × Bytes) → Option (Bytes × Bytes)
greater p none = some (p.key, p.value)
greater p (some (k, v)) = if lex_le k p.key then some (p.key, p.value) else some (k, v)

pub greatest : List Put → ColumnFamily → Option (Bytes × Bytes)
greatest [] cf = none
greatest (p ∷ puts) cf =
    let rest = greatest puts cf in
    if family_index p.family == family_index cf then greater p rest else rest

lex_refl : (xs : Bytes) → lex_le xs xs ≡ true
unfolding lex_le
lex_refl [] = refl
lex_refl (x ∷ xs) = rw (lex_refl xs) (ground arith)

lex_total : (xs ys : Bytes) → lex_le xs ys ≡ false → lex_le ys xs ≡ true
unfolding lex_le
lex_total [] ys e = cc
lex_total (x ∷ xs) [] e = refl
lex_total (x ∷ xs) (y ∷ ys) e = let ih = lex_total xs ys in ground arith

lex_trans : (xs ys zs : Bytes) → lex_le xs ys ≡ true → lex_le ys zs ≡ true → lex_le xs zs ≡ true
unfolding lex_le
lex_trans [] ys zs e f = refl
lex_trans (x ∷ xs) [] zs e f = cc
lex_trans (x ∷ xs) (y ∷ ys) [] e f = cc
lex_trans (x ∷ xs) (y ∷ ys) (z ∷ zs) e f = let ih = lex_trans xs ys zs in ground arith

module _ (c : Bytes → Option Bytes) (p : Put) where
  abbrev over : Bytes → Option Bytes
  over k = if same_bytes p.key k then some p.value else c k

  over-key : over p.key ≡ some p.value
  over-key = rw ((same_bytes_iff p.key p.key).1 refl)

  -- The new put is the last one, if every old key is at most its key.
  last_new :
      ((j w : Bytes) → c j ≡ some w → lex_le j p.key ≡ true) → IsLast over (some (p.key, p.value))
  last_new below = (
    over-key,
    λ j w e. elim (Bool-cases (same_bytes p.key j)) [
      | inl same ↦ ap (λ k. lex_le k p.key) (sym ((same_bytes_iff p.key j).0 same)) ∙ lex_refl p.key
      | inr other ↦ below j w (rw other at e)
    ],
  )

  last_old :
      (k v : Bytes) → IsLast c (some (k, v)) → lex_le k p.key ≡ false → IsLast over (some (k, v))
  last_old k v (here, above) less = (
    elim (Bool-cases (same_bytes p.key k)) [
      | inl same ↦ cc (ap (λ j. lex_le k j) ((same_bytes_iff p.key k).0 same), lex_refl k, less)
      | inr other ↦ rw other here
    ],
    λ j w e. elim (Bool-cases (same_bytes p.key j)) [
      | inl same ↦
          ap (λ i. lex_le i k) (sym ((same_bytes_iff p.key j).0 same)) ∙ lex_total k p.key less
      | inr other ↦ above j w (rw other at e)
    ],
  )

  greater-IsLast : (o : Option (Bytes × Bytes)) → IsLast c o → IsLast over (greater p o)
  greater-IsLast none empty = last_new (λ j w e. cc (empty j))
  greater-IsLast (some (k, v)) (here, above) = elim (Bool-cases (lex_le k p.key)) [
    | inl more ↦ rw more (last_new (λ j w e. lex_trans j k p.key (above j w e) more))
    | inr less ↦ rw less (last_old k v (here, above) less)
  ]

greatest-IsLast : (puts : List Put) (cf : ColumnFamily) → IsLast (held puts cf) (greatest puts cf)
unfolding held greatest
greatest-IsLast [] cf = λ k. refl
greatest-IsLast (p ∷ puts) cf = elim (Bool-cases (family_index p.family == family_index cf)) [
  | inl same ↦
      subst
        (λ t.
          IsLast (λ k. if t && same_bytes p.key k then some p.value else held puts cf k)
            (if t then greater p (greatest puts cf) else greatest puts cf))
        (sym same) (greater-IsLast (held puts cf) p (greatest puts cf) (greatest-IsLast puts cf))
  | inr other ↦
      subst
        (λ t.
          IsLast (λ k. if t && same_bytes p.key k then some p.value else held puts cf k)
            (if t then greater p (greatest puts cf) else greatest puts cf))
        (sym other) (greatest-IsLast puts cf)
]

held-pushed :
    (puts batch : List Put) (cf : ColumnFamily) (k : Bytes)
    → held (pushed puts batch) cf k ≡ after_puts (held puts) batch cf k
unfolding held pushed
held-pushed puts [] cf k = refl
held-pushed puts (p ∷ batch) cf k = held-pushed (p ∷ puts) batch cf k

abbrev pub rocks : RocksDb
rocks = record {
  Handle = List Put;
  get_cf = λ puts cf k. ok (held puts cf k);
  write = λ puts batch. ok (pushed puts batch);
  last = λ puts cf. ok (greatest puts cf);
  contents = held;
}

pub rocks-IsRocksDb : IsRocksDb rocks
rocks-IsRocksDb = record {
  get = λ puts cf k. refl;
  write = λ puts batch. (pushed puts batch, refl, held-pushed puts batch);
  last = λ puts cf. (greatest puts cf, refl, greatest-IsLast puts cf);
}

-- An environment is the list of puts, and so is a transaction.
abbrev pub lmdb : Heed
lmdb = record {
  Env = List Put;
  RoTxn = List Put;
  RwTxn = List Put;
  read_txn = λ puts. ok puts;
  write_txn = λ puts. ok puts;
  as_read = λ puts. puts;
  open_database = λ puts cf. ok (some tt);
  get_bytes = λ puts cf k. ok (held puts cf k);
  last_bytes = λ puts cf. ok (greatest puts cf);
  put_bytes = λ puts cf k v. ok ((record { family = cf; key = k; value = v }) ∷ puts);
  commit_read = λ puts. ok tt;
  commit = λ puts. ok puts;
  encoding_error = 1;
  decoding_error = 2;
  contents = held;
  seen = held;
  pending = held;
}

pub lmdb-IsHeed : IsHeed lmdb
unfolding held
lmdb-IsHeed = record {
  read_txn = λ puts. (puts, refl, λ cf k. refl);
  write_txn = λ puts. (puts, refl, λ cf k. refl);
  open_database = λ puts cf. refl;
  get = λ puts cf k. refl;
  last = λ puts cf. (greatest puts cf, refl, greatest-IsLast puts cf);
  put = λ puts cf k v. ((record { family = cf; key = k; value = v }) ∷ puts, refl, λ cf' j. refl);
  commit_read = λ puts. refl;
  commit = λ puts. (puts, refl, λ cf k. refl);
}

pub held_nothing : (cf : ColumnFamily) (k : Bytes) → held [] cf k ≡ none
unfolding held
held_nothing cf k = refl
