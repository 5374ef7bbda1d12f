-- ===== src/Storage/Rocks/Tries/Accounts.antt =====
-- The storage tries of two accounts do not touch each other, though they share a column family.
use op_move.Base.{
  ◌^◌, ◌<◌, ◌≡◌, refl, sym, ap, ◌∙◌, Bool, true, false, ◌&&◌, List, [], ◌∷◌, ◌++◌, Option, some,
  Bytes, Address, ◌==◌, if◌then◌else◌, arith, length,
}
use op_move.Base.Same.{same_list, same_bytes}
use op_move.Storage.Keys.{to_be_bytes, length-to_be_bytes, same_bytes-to_be_bytes}
use op_move.Storage.Db.{ok, ColumnFamily, Contents, after_put, after_puts, RocksDb, IsRocksDb}
use op_move.Storage.Rocks.Tries.{
  address_bytes, zip_puts, unique_key, get_storage_node, insert_storage_nodes,
}

and_assoc : (a b c : Bool) → (a && (b && c)) ≡ ((a && b) && c)
and_assoc true b c = refl
and_assoc false b c = refl

-- Texts that begin with parts of one length are the same exactly if both parts are.
same_append :
    (ps qs xs ys : Bytes)
    → length ps ≡ length qs
    → same_bytes (ps ++ xs) (qs ++ ys) ≡ (same_bytes ps qs && same_bytes xs ys)
unfolding same_bytes same_list
same_append [] [] xs ys e = refl
same_append [] (q ∷ qs) xs ys e = absurd (omega arith)
same_append (p ∷ ps) [] xs ys e = absurd (omega arith)
same_append (p ∷ ps) (q ∷ qs) xs ys e =
    rw (same_append ps qs xs ys (omega arith)) (and_assoc (p == q) _ _)

-- The value under a key in a batch for one trie, the last one if there are several.
pub in_batch : List Bytes → List Bytes → Bytes → Option Bytes → Option Bytes
in_batch [] values j old = old
in_batch (key ∷ keys) [] j old = old
in_batch (key ∷ keys) (value ∷ values) j old =
    in_batch keys values j (if same_bytes key j then some value else old)

same_unique :
    (a b : Address) (key j : Bytes)
    → a < 256 ^ 20
    → b < 256 ^ 20
    → same_bytes (unique_key a key) (unique_key b j) ≡ ((a == b) && same_bytes key j)
unfolding unique_key address_bytes
same_unique a b key j ha hb =
    same_append (to_be_bytes 20 a) (to_be_bytes 20 b) key j
      (length-to_be_bytes 20 a ∙ sym (length-to_be_bytes 20 b))
    ∙ ap (λ t. t && same_bytes key j) (same_bytes-to_be_bytes 20 a b ha hb)

one_put :
    (t s : Bool) (value old : Option Bytes) (rest : Option Bytes → Option Bytes)
    → (if t then rest (if t && s then value else old) else (if t && s then value else old))
      ≡ (if t then rest (if s then value else old) else old)
one_put true s value old rest = refl
one_put false s value old rest = refl

after_batch :
    (c : Contents) (a b : Address) (keys values : List Bytes) (j : Bytes)
    → a < 256 ^ 20
    → b < 256 ^ 20
    → after_puts c
        (zip_puts ColumnFamily.evm_storage_trie (unique_key a) keys values)
        ColumnFamily.evm_storage_trie
        (unique_key b j)
      ≡ (if a == b
          then in_batch keys values j (c ColumnFamily.evm_storage_trie (unique_key b j))
          else c ColumnFamily.evm_storage_trie (unique_key b j))
unfolding zip_puts in_batch
after_batch c a b [] values j ha hb = ground arith
after_batch c a b (key ∷ keys) [] j ha hb = ground arith
after_batch c a b (key ∷ keys) (value ∷ values) j ha hb =
    after_batch
      (after_put c
        (record { family = ColumnFamily.evm_storage_trie; key = unique_key a key; value = value }))
      a b keys values j ha hb
    ∙ rw (same_unique a b key j ha hb) (
        one_put (a == b) (same_bytes key j) (some value)
          (c ColumnFamily.evm_storage_trie (unique_key b j)) (in_batch keys values j))

-- Writing nodes of one account always succeeds on a working database. The account then reads the new
-- nodes, the last one under each key, and its old ones under all other keys; every other account
-- reads what it read before.
pub get_storage_node-insert_storage_nodes :
    (r : RocksDb) (db : r.Handle) (a b : Address) (keys values : List Bytes) (j : Bytes)
    → IsRocksDb r
    → a < 256 ^ 20
    → b < 256 ^ 20
    → (db' : r.Handle) × (old : Option Bytes) × (insert_storage_nodes r a db keys values ≡ ok db')
      × (get_storage_node r b db j ≡ ok old)
      × (get_storage_node r b db' j ≡ ok (if a == b then in_batch keys values j old else old))
unfolding insert_storage_nodes get_storage_node
get_storage_node-insert_storage_nodes r db a b keys values j law ha hb =
    let (db', done, after) =
      law.write db (zip_puts ColumnFamily.evm_storage_trie (unique_key a) keys values) in
    (
      db',
      r.contents db ColumnFamily.evm_storage_trie (unique_key b j),
      done,
      law.get db ColumnFamily.evm_storage_trie (unique_key b j),
      law.get db' ColumnFamily.evm_storage_trie (unique_key b j)
          ∙ ap ok (
              after ColumnFamily.evm_storage_trie (unique_key b j)
              ∙ after_batch (r.contents db) a b keys values j ha hb),
    )
