-- ===== src/Chain/EvMap.antt =====
-- The concurrent multi-map of the crate evmap, as the memories of the blockchain crate use it: an
-- insertion adds to the values of a key and is seen by readers after the next refresh. `get_one`
-- promises some value of the key, and that of a key with one value is that value.
use op_move.Base.{ℕ, suc, ◌≡◌, List, [], ◌∷◌, Option, none, some, ◌==◌, if◌then◌else◌}

pub record EvMap (V : Type 0) : Type 1 where
  pub Handle : Type 0
  pub empty : Handle
  pub insert : ℕ → V → Handle → Handle
  pub refresh : Handle → Handle
  pub get_one : Handle → ℕ → Option V
  pub len : Handle → ℕ
  -- The values of each key, and the number of keys, that the writer has inserted.
  pub pending : Handle → ℕ → List V
  pub size : Handle → ℕ
  -- The values of each key that readers see.
  pub visible : Handle → ℕ → List V

abbrev pub size_after {ℓ} : {A : Type ℓ} → List A → ℕ → ℕ
size_after [] n = suc n
size_after (x ∷ xs) n = n

-- The documented behaviour.
pub record IsEvMap {V : Type 0} (m : EvMap V) : Type 0 where
  pub pending-empty : (k : ℕ) → m.pending m.empty k ≡ []
  pub size-empty : m.size m.empty ≡ 0
  pub visible-empty : (k : ℕ) → m.visible m.empty k ≡ []
  pub len-empty : m.len m.empty ≡ 0
  pub pending-insert :
      (k : ℕ) (v : V) (h : m.Handle) (j : ℕ)
      → m.pending (m.insert k v h) j ≡ (if k == j then v ∷ m.pending h j else m.pending h j)
  pub size-insert :
      (k : ℕ) (v : V) (h : m.Handle)
      → m.size (m.insert k v h) ≡ size_after (m.pending h k) (m.size h)
  pub visible-insert :
      (k : ℕ) (v : V) (h : m.Handle) (j : ℕ) → m.visible (m.insert k v h) j ≡ m.visible h j
  pub len-insert : (k : ℕ) (v : V) (h : m.Handle) → m.len (m.insert k v h) ≡ m.len h
  pub pending-refresh : (h : m.Handle) (j : ℕ) → m.pending (m.refresh h) j ≡ m.pending h j
  pub size-refresh : (h : m.Handle) → m.size (m.refresh h) ≡ m.size h
  pub visible-refresh : (h : m.Handle) (j : ℕ) → m.visible (m.refresh h) j ≡ m.pending h j
  pub len-refresh : (h : m.Handle) → m.len (m.refresh h) ≡ m.size h
  pub get_one-none : (h : m.Handle) (k : ℕ) → m.visible h k ≡ [] → m.get_one h k ≡ none
  pub get_one-one : (h : m.Handle) (k : ℕ) (v : V) → m.visible h k ≡ v ∷ [] → m.get_one h k ≡ some v
  pub get_one-some :
      (h : m.Handle) (k : ℕ) (v : V) (vs : List V)
      → m.visible h k ≡ v ∷ vs
      → (w : V) × (m.get_one h k ≡ some w)
