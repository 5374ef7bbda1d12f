-- ===== src/State/Restart.antt =====
-- The state of a node over several change sets, and after the node has been started again.
use op_move.Base.{
  ◌≡◌, refl, sym, ap, ◌∙◌, List, [], ◌∷◌, ◌++◌, Option, none, some, Bytes, if◌then◌else◌,
}
use mathlib.Core.List.{append-nil, append_assoc}
use mathlib.Core.Path.{subst}
use op_move.Storage.Db.{DbResult, ok, ◌>>=◌}
use op_move.Storage.Contents.{or_else}
use op_move.State.{
  Encodings, ChangeSet, TreeKey, TreeValue, TreeValues, same_key, key_hash, change_entries,
}
use op_move.State.Store.{MerkleTrie, RocksDbState, try_from_opt_root, open_state, apply}
use op_move.State.Values.{last_of, read_after, IsApart, IsMerkleTrie, insert_change_set_lem}

-- The values of a sequence of change sets, each of whose tags has a key.
abbrev pub AreEntries : Encodings → List ChangeSet → TreeValues → Type 0
AreEntries lib [] all = [] ≡ all
AreEntries lib (changes ∷ rest) all =
    (entries : TreeValues) × (others : TreeValues) × (change_entries lib changes ≡ some entries)
    × AreEntries lib rest others
    × ((entries ++ others) ≡ all)

last_of-append :
    (k : TreeKey) (xs ys : TreeValues)
    → last_of k (xs ++ ys) ≡ or_else (last_of k ys) (last_of k xs)
last_of-append k [] ys = or_none (last_of k ys)
  where
    or_none : (o : Option TreeValue) → o ≡ or_else o none
    or_none none = refl
    or_none (some w) = refl
last_of-append k ((j, v) ∷ xs) ys =
    rw (last_of-append k xs ys)
      (or_assoc (last_of k ys) (last_of k xs) (if same_key j k then some v else none))
  where
    or_assoc : (o p q : Option TreeValue) → or_else (or_else o p) q ≡ or_else o (or_else p q)
    or_assoc none p q = refl
    or_assoc (some w) p q = refl

IsApart-parts :
    (lib : Encodings) (k : TreeKey) (xs ys : TreeValues)
    → IsApart lib k (xs ++ ys)
    → IsApart lib k xs × IsApart lib k ys
IsApart-parts lib k [] ys h = (tt, h)
IsApart-parts lib k (x ∷ xs) ys h = let (hx, hy) = IsApart-parts lib k xs ys h.1 in ((h.0, hx), hy)

read_after-or_else :
    (lib : Encodings) (o p : Option TreeValue) (old : DbResult (Option Bytes))
    → read_after lib o (read_after lib p old) ≡ read_after lib (or_else o p) old
read_after-or_else lib none p old = refl
read_after-or_else lib (some w) p old = refl

module _ (t : MerkleTrie) (lib : Encodings) where
  -- What a trie gives after these values.
  abbrev Reads : t.Trie → TreeValues → Type 0
  Reads trie es =
      (k : TreeKey)
      → IsApart lib k es
      → t.get_bytes trie (key_hash lib k) ≡ read_after lib (last_of k es) (ok none)

  -- The state reads these values, and so does its trie when it is opened at the root on disk.
  record Holds (st : RocksDbState t lib) (es : TreeValues) : Type 0 where
    reads : Reads st.resolver es
    persisted : t.root st.db ≡ ok st.state_root
    opened :
        (trie : t.Trie) × (try_from_opt_root t lib st.db st.state_root ≡ ok trie) × Reads trie es

  unfoldable pub apply_all : RocksDbState t lib → List ChangeSet → DbResult (RocksDbState t lib)
  unfolding apply
  apply_all st [] = ok st
  apply_all st (changes ∷ rest) = do st ← apply t lib st changes; apply_all st rest

  module _ (law : IsMerkleTrie t) where
    apply-Holds :
        (st : RocksDbState t lib) (es entries : TreeValues) (changes : ChangeSet)
        → Holds st es
        → change_entries lib changes ≡ some entries
        → (st' : RocksDbState t lib) × (apply t lib st changes ≡ ok st') × Holds st' (es ++ entries)
    unfolding apply
    apply-Holds st es entries changes held e =
        let (trie, opens, before) = held.opened in
        let (root, trie1, inserted, reads, trie2, at_root, like) =
          insert_change_set_lem t lib law trie changes entries e in
        let (db, put, persisted, trie3, again, alike) =
          law.put_root (t.db_of trie1) root trie2 at_root in
        let after : Reads trie1 (es ++ entries) = λ k h.
          let (old, new) = IsApart-parts lib k es entries h in
          reads k new
          ∙ ap (read_after lib (last_of k entries)) (before k old)
          ∙ read_after-or_else lib (last_of k entries) (last_of k es) (ok none)
          ∙ ap (λ o. read_after lib o (ok none)) (sym (last_of-append k es entries)) in
        (
          record { db = db; resolver = trie1; state_root = some root },
          rw (opens, inserted, put) refl,
          record {
            reads = after;
            persisted = persisted;
            opened =
                (trie3, again, λ k h. alike (key_hash lib k) ∙ like (key_hash lib k) ∙ after k h);
          },
        )

    apply_all-Holds :
        (st : RocksDbState t lib) (es entries : TreeValues) (css : List ChangeSet)
        → Holds st es
        → AreEntries lib css entries
        → (st' : RocksDbState t lib) × (apply_all st css ≡ ok st') × Holds st' (es ++ entries)
    unfolding apply_all
    apply_all-Holds st es entries [] held h =
        (st, refl, subst (Holds st) (sym (append-nil es) ∙ ap (λ l. es ++ l) h) held)
    apply_all-Holds st es entries (changes ∷ css) held (now, later, e, rest, all) =
        let (st1, applied, held1) = apply-Holds st es now changes held e in
        let (st2, others, held2) = apply_all-Holds st1 (es ++ now) later css held1 rest in
        (
          st2,
          rw applied others,
          subst (Holds st2) (append_assoc es now later ∙ ap (λ l. es ++ l) all) held2,
        )

-- On an empty database that does not fail a state opens, and any change sets, all of whose resources
-- have keys, are applied to it one after the other. Under a key whose hash no other of their keys has,
-- the trie of the state then reads the last value that the change sets have for it, or none; and so
-- does the trie of a state that is newly opened on the database.
pub open_state-apply_all :
    (t : MerkleTrie) (lib : Encodings) (db : t.Db) (css : List ChangeSet) (entries : TreeValues)
    (k : TreeKey)
    → IsMerkleTrie t
    → t.root db ≡ ok none
    → AreEntries lib css entries
    → IsApart lib k entries
    → (start : RocksDbState t lib) × (open_state t lib db ≡ ok start)
      × (st : RocksDbState t lib) × (apply_all t lib start css ≡ ok st)
      × (again : RocksDbState t lib) × (open_state t lib st.db ≡ ok again)
      × (t.get_bytes st.resolver (key_hash lib k) ≡ read_after lib (last_of k entries) (ok none))
      × (t.get_bytes again.resolver (key_hash lib k) ≡ read_after lib (last_of k entries) (ok none))
unfolding open_state
open_state-apply_all t lib db css entries k law empty all apart =
    let start : RocksDbState t lib = record {
      db = db;
      resolver = t.new_trie db;
      state_root = none;
    } in
    let fresh : Reads t lib (t.new_trie db) [] = λ j h. law.new_trie db (key_hash lib j) in
    let (st, applied, held) =
      apply_all-Holds t lib law start [] entries css
        (record { reads = fresh; persisted = empty; opened = (t.new_trie db, refl, fresh) }) all in
    let (trie, opens, reads) = held.opened in
    (
      start,
      rw empty refl,
      st,
      applied,
      record { db = st.db; resolver = trie; state_root = st.state_root },
      rw (held.persisted, opens) refl,
      held.reads k apart,
      reads k apart,
    )
