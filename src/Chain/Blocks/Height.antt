-- ===== src/Chain/Blocks/Height.antt =====
-- The memory of blocks refines a list of blocks, as long as each block carries the number of blocks
-- before it: heights index the list, and the last block is its last entry.
use mathlib.Core.Path.{subst}
use mathlib.Core.List.{append-nil, append_assoc}
use op_move.Base.{
  ℕ, zero, suc, ◌≡◌, refl, ◌∙◌, Option, none, some, List, [], ◌∷◌, ◌++◌, arith, ◌==◌, eq_refl,
  if◌then◌else◌, length, length-append, get_elem?, ==_iff, inl, inr, Bool-cases,
}
use op_move.Base.U256.{checked_sub}
use op_move.Chain.Types.{ExtendedBlock}
use op_move.Chain.EvMap.{EvMap, IsEvMap}
use op_move.Chain.Blocks.{BlockMemory, new, add, by_height, height, last, add_all}

abbrev to_list {ℓ} : {A : Type ℓ} → Option A → List A
to_list none = []
to_list (some a) = a ∷ []

pub get_elem?-snoc {ℓ} :
    {A : Type ℓ} (xs : List A) (x : A) (k : ℕ)
    → get_elem? (xs ++ x ∷ []) k ≡ (if length xs == k then some x else get_elem? xs k)
get_elem?-snoc [] x zero = refl
get_elem?-snoc [] x (suc k) = ground arith
get_elem?-snoc (y ∷ ys) x zero = ground arith
get_elem?-snoc (y ∷ ys) x (suc k) = ground (arith, get_elem?-snoc ys x k)

get_elem?-length {ℓ} : {A : Type ℓ} (xs : List A) → get_elem? xs (length xs) ≡ none
get_elem?-length [] = refl
get_elem?-length (x ∷ xs) = get_elem?-length xs

-- The blocks carry the numbers from `n` on.
abbrev pub AreNumbered : ℕ → List ExtendedBlock → Type 0
AreNumbered n [] = Unit
AreNumbered n (b ∷ bs) = (b.block.header.number ≡ n) × AreNumbered (suc n) bs

module _ (m : EvMap ExtendedBlock) where
  -- The index of heights holds exactly the blocks of the list, and readers see them.
  pub record Holds (mem : BlockMemory m) (bs : List ExtendedBlock) : Type 0 where
    pub pending : (k : ℕ) → m.pending mem.heights k ≡ to_list (get_elem? bs k)
    pub size : m.size mem.heights ≡ length bs
    pub visible : (k : ℕ) → m.visible mem.heights k ≡ to_list (get_elem? bs k)
    pub len : m.len mem.heights ≡ length bs

  module _ (law : IsEvMap m) where
    pub new-Holds : Holds (new m) []
    unfolding new
    new-Holds = record {
      pending = law.pending-empty;
      size = law.size-empty;
      visible = law.visible-empty;
      len = law.len-empty;
    }

    module _ (mem : BlockMemory m) (bs : List ExtendedBlock) (b : ExtendedBlock) where
      inserted :
          Holds mem bs
          → b.block.header.number ≡ length bs
          → (k : ℕ)
          → m.pending (m.insert b.block.header.number b mem.heights) k
            ≡ to_list (get_elem? (bs ++ b ∷ []) k)
      inserted h e k =
          rw
            (
              law.pending-insert b.block.header.number b mem.heights k,
              h.pending k,
              get_elem?-snoc bs b k,
              e,
            )
            (elim (Bool-cases (length bs == k)) [
              | inl here ↦ rw (here, ← (==_iff (length bs) k).0 here, get_elem?-length bs)
              | inr other ↦ rw other
            ])

      grown :
          Holds mem bs
          → b.block.header.number ≡ length bs
          → m.size (m.insert b.block.header.number b mem.heights) ≡ length (bs ++ b ∷ [])
      grown h e =
          law.size-insert _ b mem.heights
          ∙ rw (h.pending b.block.header.number, e, get_elem?-length bs, h.size, length-append bs)
              (omega arith)

      -- Adding the next block of the chain appends it to the list.
      pub add-Holds :
          Holds mem bs → b.block.header.number ≡ length bs → Holds (add m mem b) (bs ++ b ∷ [])
      unfolding add
      add-Holds h e = record {
        pending = λ k. law.pending-refresh _ k ∙ inserted h e k;
        size = law.size-refresh _ ∙ grown h e;
        visible = λ k. law.visible-refresh _ k ∙ inserted h e k;
        len = law.len-refresh _ ∙ grown h e;
      }

    get_one-to_list :
        (h : m.Handle) (k : ℕ) (o : Option ExtendedBlock)
        → m.visible h k ≡ to_list o
        → m.get_one h k ≡ o
    get_one-to_list h k none e = law.get_one-none h k e
    get_one-to_list h k (some b) e = law.get_one-one h k b e

    by_height_pure :
        (mem : BlockMemory m) (k : ℕ) (o : Option ExtendedBlock)
        → m.get_one mem.heights k ≡ o
        → by_height m mem k ≡ o
    unfolding by_height
    by_height_pure mem k none e = rw e
    by_height_pure mem k (some b) e = rw e

    -- Reading a height is reading the list.
    pub by_height-Holds :
        (mem : BlockMemory m) (bs : List ExtendedBlock) (k : ℕ)
        → Holds mem bs
        → by_height m mem k ≡ get_elem? bs k
    by_height-Holds mem bs k h =
        by_height_pure mem k (get_elem? bs k) (get_one-to_list mem.heights k _ (h.visible k))

    pub add_all-Holds :
        (mem : BlockMemory m) (bs cs : List ExtendedBlock)
        → Holds mem bs
        → AreNumbered (length bs) cs
        → Holds (add_all m mem cs) (bs ++ cs)
    unfolding add_all
    add_all-Holds mem bs [] h n = rw append-nil h
    add_all-Holds mem bs (c ∷ cs) h n = rw (← append_assoc bs (c ∷ []) cs) (
        add_all-Holds (add m mem c) (bs ++ c ∷ []) cs (add-Holds mem bs c h n.0)
          (subst (λ k. AreNumbered k cs) (rw length-append (omega arith)) n.1))

-- The height of a chain is the number of its last block, and every block is found at its number;
-- no other height is taken.
pub by_height-add_all :
    (m : EvMap ExtendedBlock) (bs : List ExtendedBlock) (k : ℕ)
    → IsEvMap m
    → AreNumbered 0 bs
    → (by_height m (add_all m (new m) bs) k ≡ get_elem? bs k)
      × (height m (add_all m (new m) bs) ≡ checked_sub (length bs) 1)
unfolding height
by_height-add_all m bs k law n =
    let h = add_all-Holds m law (new m) [] bs (new-Holds m law) n in
    (by_height-Holds m law _ bs k h, rw h.len)

height-Holds :
    (m : EvMap ExtendedBlock) (mem : BlockMemory m) (bs : List ExtendedBlock) (n : ℕ)
    → length bs ≡ suc n
    → Holds m mem bs
    → height m mem ≡ some n
unfolding height
height-Holds m mem bs n e h = rw (h.len, e) (ground arith)

last-height :
    (m : EvMap ExtendedBlock) (mem : BlockMemory m) (n : ℕ)
    → height m mem ≡ some n
    → last m mem ≡ by_height m mem n
unfolding last
last-height m mem n e = rw e

-- The last block of the memory is that of the list.
pub last-Holds :
    (m : EvMap ExtendedBlock) (law : IsEvMap m) (mem : BlockMemory m) (bs : List ExtendedBlock)
    (n : ℕ)
    → length bs ≡ suc n
    → Holds m mem bs
    → last m mem ≡ get_elem? bs n
last-Holds m law mem bs n e h =
    last-height m mem n (height-Holds m mem bs n e h) ∙ by_height-Holds m law mem bs n h

-- The last block is the one added last.
pub last-add_all :
    (m : EvMap ExtendedBlock) (bs : List ExtendedBlock) (b : ExtendedBlock)
    → IsEvMap m
    → AreNumbered 0 bs
    → b.block.header.number ≡ length bs
    → (last m (add m (add_all m (new m) bs) b) ≡ some b)
      × (height m (add m (add_all m (new m) bs) b) ≡ some (length bs))
last-add_all m bs b law n e = (
  last-Holds m law mem _ (length bs) grown_length held ∙ found,
  height-Holds m mem _ (length bs) grown_length held,
)
  where
    mem : BlockMemory m
    mem = add m (add_all m (new m) bs) b

    held : Holds m mem (bs ++ b ∷ [])
    held = add-Holds m law _ bs b (add_all-Holds m law (new m) [] bs (new-Holds m law) n) e

    found : get_elem? (bs ++ b ∷ []) (length bs) ≡ some b
    found = get_elem?-snoc bs b (length bs) ∙ rw eq_refl

    grown_length : length (bs ++ b ∷ []) ≡ suc (length bs)
    grown_length = omega (arith, length-append bs (b ∷ []))
