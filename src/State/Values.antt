-- ===== src/State/Values.antt =====
-- The values that a change set writes into the state trie, under each key the last one.
use op_move.Base.{
  ◌≡◌, refl, sym, ap, ◌∙◌, ◌↔◌, Bool, true, false, [], ◌∷◌, Option, none, some, B256, Bytes, ◌==◌,
  if◌then◌else◌, Bool-cases, inl, inr, ==_iff,
}
use op_move.Base.Same.{same_bytes_iff}
use op_move.Storage.Db.{DbResult, ok}
use op_move.Storage.Contents.{or_else}
use op_move.State.{
  Encodings, ChangeSet, TreeKey, TreeValue, TreeValues, same_key, without, collect_onto, key_hash,
  serialize, to_tree_values, change_entries,
}
use op_move.State.Store.{MerkleTrie, insert_values, insert_change_set}

pub same_key_iff : (j k : TreeKey) → (same_key j k ≡ true) ↔ (j ≡ k)
unfolding same_key
same_key_iff (TreeKey.state_key xs) (TreeKey.state_key ys) =
    (λ e. ap TreeKey.state_key ((same_bytes_iff xs ys).0 e), λ e. (same_bytes_iff xs ys).1 (cc))
same_key_iff (TreeKey.state_key xs) (TreeKey.evm b) = (λ e. cc, λ e. cc)
same_key_iff (TreeKey.evm a) (TreeKey.state_key ys) = (λ e. cc, λ e. cc)
same_key_iff (TreeKey.evm a) (TreeKey.evm b) =
    (λ e. ap TreeKey.evm ((==_iff a b).0 e), λ e. (==_iff a b).1 (cc))

-- The value that stands last under a key.
abbrev pub last_of : TreeKey → TreeValues → Option TreeValue
last_of k [] = none
last_of k ((j, v) ∷ entries) = or_else (last_of k entries) (if same_key j k then some v else none)

last_of-without :
    (k j : TreeKey) (m : TreeValues)
    → last_of k (without j m) ≡ (if same_key j k then none else last_of k m)
last_of-without k j [] = elim (Bool-cases (same_key j k)) [ inl e ↦ rw e refl | inr e ↦ rw e refl ]
last_of-without k j ((i, v) ∷ m) = elim (Bool-cases (same_key i j)) [
  | inl same ↦
      let e : i ≡ j = (same_key_iff i j).0 same in
      rw (same, last_of-without k j m, ap (λ x. same_key x k) e) (dropped (same_key j k))
  | inr other ↦ elim (Bool-cases (same_key j k)) [
    | inl here ↦
        let e : j ≡ k = (same_key_iff j k).0 here in
        let apart : same_key i k ≡ false = ap (λ x. same_key i x) (sym e) ∙ other in
        rw (other, last_of-without k j m, here, apart) refl
    | inr there ↦ rw (other, last_of-without k j m, there) refl
  ]
]
  where
    dropped :
        (b : Bool)
        → (if b then none else last_of k m)
          ≡ (if b then none else or_else (last_of k m) (if b then some v else none))
    dropped true = refl
    dropped false = or_none (last_of k m)
      where
        or_none : (o : Option TreeValue) → o ≡ or_else o none
        or_none none = refl
        or_none (some w) = refl

put_last :
    (o r : Option TreeValue) (b : Bool) (v : TreeValue)
    → or_else o (or_else (if b then none else r) (if b then some v else none))
      ≡ or_else (or_else o (if b then some v else none)) r
put_last (some w) r b v = refl
put_last none r true v = refl
put_last none none false v = refl
put_last none (some w) false v = refl

pub last_of-collect_onto :
    (k : TreeKey) (m entries : TreeValues)
    → last_of k (collect_onto m entries) ≡ or_else (last_of k entries) (last_of k m)
unfolding collect_onto
last_of-collect_onto k m [] = refl
last_of-collect_onto k m ((j, v) ∷ entries) =
    last_of-collect_onto k ((j, v) ∷ without j m) entries
    ∙ rw (last_of-without k j m) (put_last (last_of k entries) (last_of k m) (same_key j k) v)

-- What an insertion leaves: a trie keeps no empty value.
abbrev pub non_empty : Bytes → Option Bytes
non_empty [] = none
non_empty (b ∷ bytes) = some (b ∷ bytes)

-- The documented behaviour of tries over a store that does not fail and keeps the nodes.
pub record IsMerkleTrie (t : MerkleTrie) : Type 0 where
  pub new_trie : (db : t.Db) (j : B256) → t.get_bytes (t.new_trie db) j ≡ ok none
  pub insert :
      (trie : t.Trie) (key : B256) (value : Bytes)
      → (trie' : t.Trie) × (t.insert_bytes trie key value ≡ ok trie')
        × ((j : B256)
            → t.get_bytes trie' j ≡ (if key == j then ok (non_empty value) else t.get_bytes trie j))
  pub root_hash :
      (trie : t.Trie)
      → (root : B256) × (trie' : t.Trie) × (t.root_hash trie ≡ ok (root, trie'))
        × ((j : B256) → t.get_bytes trie' j ≡ t.get_bytes trie j)
        × (opened : t.Trie) × (t.from_root (t.db_of trie') root ≡ ok opened)
        × ((j : B256) → t.get_bytes opened j ≡ t.get_bytes trie j)
  pub put_root :
      (db : t.Db) (root : B256) (trie : t.Trie)
      → t.from_root db root ≡ ok trie
      → (db' : t.Db) × (t.put_root db root ≡ ok db')
        × (t.root db' ≡ ok (some root))
        × (opened : t.Trie) × (t.from_root db' root ≡ ok opened)
        × ((j : B256) → t.get_bytes opened j ≡ t.get_bytes trie j)

module _ (lib : Encodings) where
  -- What is read after a value has been written, if one has.
  abbrev pub read_after : Option TreeValue → DbResult (Option Bytes) → DbResult (Option Bytes)
  read_after none old = old
  read_after (some v) old = ok (non_empty (serialize lib v))

module _ (lib : Encodings) (k : TreeKey) where
  -- No other key of these entries has the hash of this one.
  abbrev pub IsApart : TreeValues → Type 0
  IsApart [] = Unit
  IsApart ((j, v) ∷ entries) = ((key_hash lib j == key_hash lib k) ≡ same_key j k) × IsApart entries

  without-IsApart : (j : TreeKey) (m : TreeValues) → IsApart m → IsApart (without j m)
  without-IsApart j [] h = tt
  without-IsApart j ((i, v) ∷ m) h = elim (Bool-cases (same_key i j)) [
    | inl e ↦ rw e (without-IsApart j m h.1)
    | inr e ↦ rw e (h.0, without-IsApart j m h.1)
  ]

  collect_onto-IsApart :
      (m entries : TreeValues) → IsApart m → IsApart entries → IsApart (collect_onto m entries)
  unfolding collect_onto
  collect_onto-IsApart m [] h hs = h
  collect_onto-IsApart m ((j, v) ∷ entries) h hs =
      collect_onto-IsApart ((j, v) ∷ without j m) entries (hs.0, without-IsApart j m h) hs.1

module _ (t : MerkleTrie) (lib : Encodings) (law : IsMerkleTrie t) where
  one_more :
      (o : Option TreeValue) (b : Bool) (v : TreeValue) (old : DbResult (Option Bytes))
      → read_after lib o (if b then ok (non_empty (serialize lib v)) else old)
        ≡ read_after lib (or_else o (if b then some v else none)) old
  one_more (some w) b v old = refl
  one_more none true v old = refl
  one_more none false v old = refl

  insert_values_lem :
      (trie : t.Trie) (entries : TreeValues)
      → (trie' : t.Trie) × (insert_values t lib trie entries ≡ ok trie')
        × ((k : TreeKey)
            → IsApart lib k entries
            → t.get_bytes trie' (key_hash lib k)
              ≡ read_after lib (last_of k entries) (t.get_bytes trie (key_hash lib k)))
  unfolding insert_values
  insert_values_lem trie [] = (trie, refl, λ k h. refl)
  insert_values_lem trie ((j, v) ∷ entries) =
      let (trie1, inserted, reads) = law.insert trie (key_hash lib j) (serialize lib v) in
      let (trie2, rest, all) = insert_values_lem trie1 entries in
      (
        trie2,
        rw inserted rest,
        λ k h.
            all k h.1
            ∙ ap (read_after lib (last_of k entries)) (reads (key_hash lib k))
            ∙ rw h.0
                (one_more (last_of k entries) (same_key j k) v (t.get_bytes trie (key_hash lib k))),
      )

  -- A change set whose tags have keys goes into the trie, and its root opens the same trie again.
  pub insert_change_set_lem :
      (trie : t.Trie) (changes : ChangeSet) (entries : TreeValues)
      → change_entries lib changes ≡ some entries
      → (root : B256) × (trie' : t.Trie) × (insert_change_set t lib trie changes ≡ ok (root, trie'))
        × ((k : TreeKey)
            → IsApart lib k entries
            → t.get_bytes trie' (key_hash lib k)
              ≡ read_after lib (last_of k entries) (t.get_bytes trie (key_hash lib k)))
        × (opened : t.Trie) × (t.from_root (t.db_of trie') root ≡ ok opened)
        × ((j : B256) → t.get_bytes opened j ≡ t.get_bytes trie' j)
  unfolding insert_change_set to_tree_values
  insert_change_set_lem trie changes entries e =
      let (trie1, inserted, reads) = insert_values_lem trie (collect_onto [] entries) in
      let (root, trie2, hashed, same, opened, opens, like) = law.root_hash trie1 in
      (
        root,
        trie2,
        rw (e, inserted) hashed,
        (λ k h.
            same (key_hash lib k)
            ∙ reads k (collect_onto-IsApart lib k [] entries tt h)
            ∙ ap (λ o. read_after lib o (t.get_bytes trie (key_hash lib k)))
                (last_of-collect_onto k [] entries ∙ or_none (last_of k entries))),
        opened,
        opens,
        λ j. like j ∙ sym (same j),
      )
    where
      or_none : (o : Option TreeValue) → or_else o none ≡ o
      or_none none = refl
      or_none (some w) = refl
