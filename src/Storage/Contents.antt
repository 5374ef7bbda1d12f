-- ===== src/Storage/Contents.antt =====
-- The chain that a database holds: its blocks by hash, and their hashes by height. The statements are
-- about contents, so that they serve both backends.
use op_move.Base.{
  ℕ, suc, ◌^◌, ◌<◌, ◌≡◌, refl, sym, ap, ◌∙◌, Bool, true, false, List, [], ◌∷◌, ◌++◌, Option, none,
  some, B256, Bytes, ◌==◌, if◌then◌else◌, length, length-append, get_elem?, arith, inl, inr,
  Bool-cases,
}
use op_move.Base.Same.{same_bytes, same_bytes_iff}
use op_move.Storage.Keys.{u64_key, hash_key, same_bytes-to_be_bytes, lex_le, key_le}
use op_move.Storage.Db.{ColumnFamily, Put, Contents, after_puts, IsLast}
use op_move.Chain.Types.{ExtendedBlock}
use op_move.Chain.Blocks.Height.{get_elem?-snoc}

abbrev pub omap : {A B : Type 0} → (A → B) → Option A → Option B
omap f none = none
omap f (some a) = some (f a)

-- The block that was added last under a hash.
abbrev pub or_else : {A : Type 0} → Option A → Option A → Option A
or_else none other = other
or_else (some a) other = some a

abbrev pub find : B256 → List ExtendedBlock → Option ExtendedBlock
find h [] = none
find h (b ∷ bs) = or_else (find h bs) (if b.hash == h then some b else none)

-- What adding a block writes.
abbrev pub block_puts : Bytes → ExtendedBlock → List Put
block_puts value b =
    (record { family = ColumnFamily.block; key = hash_key b.hash; value = value })
    ∷ (record {
      family = ColumnFamily.height;
      key = u64_key b.block.header.number;
      value = hash_key b.hash;
    })
    ∷ []

-- The hashes are of 32 bytes.
abbrev pub AreHashes : List ExtendedBlock → Type 0
AreHashes [] = Unit
AreHashes (b ∷ bs) = (b.hash < 256 ^ 32) × AreHashes bs

module _ (read : Bytes → Option ExtendedBlock) where
  pub record Holds (c : Contents) (bs : List ExtendedBlock) : Type 0 where
    pub heights :
        (k : ℕ)
        → k < 256 ^ 8
        → c ColumnFamily.height (u64_key k) ≡ omap (λ b. hash_key b.hash) (get_elem? bs k)
    pub only :
        (j w : Bytes)
        → c ColumnFamily.height j ≡ some w
        → (k : ℕ) × (k < length bs) × (j ≡ u64_key k)
    pub blocks :
        (h : B256)
        → h < 256 ^ 32
        → omap read (c ColumnFamily.block (hash_key h)) ≡ omap (λ b. some b) (find h bs)

find-snoc :
    (h : B256) (bs : List ExtendedBlock) (b : ExtendedBlock)
    → find h (bs ++ b ∷ []) ≡ (if b.hash == h then some b else find h bs)
find-snoc h [] b = ground arith
find-snoc h (a ∷ bs) b = rw (find-snoc h bs b) (ground arith)

pub omap-if :
    {A B : Type 0} (f : A → B) (t : Bool) (a : A) (o : Option A)
    → omap f (if t then some a else o) ≡ (if t then some (f a) else omap f o)
omap-if f true a o = refl
omap-if f false a o = refl

module _ (read : Bytes → Option ExtendedBlock) (c c' : Contents) (bs : List ExtendedBlock)
    (b : ExtendedBlock) (value : Bytes)
    (written : (cf : ColumnFamily) (k : Bytes) → c' cf k ≡ after_puts c (block_puts value b) cf k)
    (reads : read value ≡ some b) (numbered : b.block.header.number ≡ length bs)
    (low : length bs < 256 ^ 8) (hash_low : b.hash < 256 ^ 32) where
  at_height :
      (j : Bytes)
      → c' ColumnFamily.height j ≡ (
          if same_bytes (u64_key b.block.header.number) j
          then some (hash_key b.hash)
          else c ColumnFamily.height j)
  at_height j = written ColumnFamily.height j

  at_block :
      (j : Bytes)
      → c' ColumnFamily.block j
        ≡ (if same_bytes (hash_key b.hash) j then some value else c ColumnFamily.block j)
  at_block j = written ColumnFamily.block j

  same_number :
      (k : ℕ)
      → k < 256 ^ 8
      → same_bytes (u64_key b.block.header.number) (u64_key k) ≡ (length bs == k)
  unfolding u64_key
  same_number k kl =
      ap (λ n. same_bytes (u64_key n) (u64_key k)) numbered
      ∙ same_bytes-to_be_bytes 8 (length bs) k low kl

  heights_after :
      Holds read c bs
      → (k : ℕ) → k < 256 ^ 8
      → c' ColumnFamily.height (u64_key k)
        ≡ omap (λ b. hash_key b.hash) (get_elem? (bs ++ b ∷ []) k)
  heights_after h k kl =
      at_height (u64_key k)
      ∙ rw (same_number k kl, h.heights k kl)
          (sym (
            ap (omap (λ b. hash_key b.hash)) (get_elem?-snoc bs b k)
            ∙ omap-if (λ b. hash_key b.hash) (length bs == k) b (get_elem? bs k)))

  only_after :
      Holds read c bs
      → (j w : Bytes) → c' ColumnFamily.height j ≡ some w
      → (k : ℕ) × (k < length (bs ++ b ∷ [])) × (j ≡ u64_key k)
  only_after h j w e =
      let longer = length-append bs (b ∷ []) in
      elim (Bool-cases (same_bytes (u64_key b.block.header.number) j)) [
        | inl new ↦ (
          length bs,
          omega arith,
          sym ((same_bytes_iff (u64_key b.block.header.number) j).0 new) ∙ ap u64_key numbered,
        )
        | inr old ↦
            let (k, less, key) = h.only j w (sym (rw old at (at_height j)) ∙ e) in
            (k, omega arith, key)
      ]

  blocks_after :
      Holds read c bs
      → (h : B256) → h < 256 ^ 32
      → omap read (c' ColumnFamily.block (hash_key h)) ≡ omap (λ b. some b) (find h (bs ++ b ∷ []))
  unfolding hash_key
  blocks_after held h hl =
      ap (omap read) (at_block (hash_key h))
      ∙ rw (same_bytes-to_be_bytes 32 b.hash h hash_low hl, find-snoc h bs b)
          (omap-if read (b.hash == h) value (c ColumnFamily.block (hash_key h))
            ∙ rw (reads, held.blocks h hl)
                (sym (omap-if (λ b. some b) (b.hash == h) b (find h bs))))

  pub add-Holds : Holds read c bs → Holds read c' (bs ++ b ∷ [])
  add-Holds h = record { heights = heights_after h; only = only_after h; blocks = blocks_after h }

-- An empty database holds the empty chain.
pub empty-Holds :
    (read : Bytes → Option ExtendedBlock) (c : Contents)
    → ((cf : ColumnFamily) (k : Bytes) → c cf k ≡ none)
    → Holds read c []
empty-Holds read c nothing = record {
  heights = λ k l. nothing ColumnFamily.height (u64_key k);
  only = λ j w e. cc (nothing ColumnFamily.height j);
  blocks = λ h l. ap (omap read) (nothing ColumnFamily.block (hash_key h));
}

module _ (read : Bytes → Option ExtendedBlock) (c : Contents) (bs : List ExtendedBlock)
    (h : Holds read c bs) where
  at_number :
      (n : ℕ) (b : ExtendedBlock)
      → n < 256 ^ 8
      → get_elem? bs n ≡ some b
      → c ColumnFamily.height (u64_key n) ≡ some (hash_key b.hash)
  at_number n b low found = h.heights n low ∙ ap (omap (λ b. hash_key b.hash)) found

  greatest :
      (n : ℕ) (k : Bytes)
      → length bs ≡ suc n
      → suc n < 256 ^ 8
      → lex_le (u64_key n) k ≡ true
      → (m : ℕ) × (m < length bs) × (k ≡ u64_key m)
      → k ≡ u64_key n
  unfolding u64_key
  greatest n k len low l (m, less, key) =
      let n_le = key_le 8 n m (omega arith) (omega arith) (rw (← key) l) in
      key ∙ ap u64_key (let e : m ≡ n = omega arith in e)

  -- The greatest key of a chain is that of its last block.
  pub last-Holds :
      (n : ℕ) (b : ExtendedBlock) (entry : Option (Bytes × Bytes))
      → length bs ≡ suc n
      → suc n < 256 ^ 8
      → get_elem? bs n ≡ some b
      → IsLast (c ColumnFamily.height) entry
      → entry ≡ some (u64_key n, hash_key b.hash)
  last-Holds n b none len low found is_last =
      cc (at_number n b (omega arith) found, is_last (u64_key n))
  last-Holds n b (some (k, v)) len low found (here, above) =
      let at_n = at_number n b (omega arith) found in
      let key = greatest n k len low (above (u64_key n) (hash_key b.hash) at_n) (h.only k v here) in
      cc (at_n, here, key)

-- An empty chain has no greatest key.
pub last-Holds_empty :
    (read : Bytes → Option ExtendedBlock) (c : Contents) (entry : Option (Bytes × Bytes))
    → Holds read c []
    → IsLast (c ColumnFamily.height) entry
    → entry ≡ none
last-Holds_empty read c none h is_last = refl
last-Holds_empty read c (some (k, v)) h (here, above) =
    let (m, less, key) = h.only k v here in absurd (omega arith)
