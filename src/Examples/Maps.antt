-- ===== src/Examples/Maps.antt =====
-- A multi-map after the documentation of the crate evmap: a table that the writer changes and the
-- table that readers see.
use op_move.Base.{ℕ, refl, ap, List, [], ◌∷◌, Option, none, some, ◌==◌, if◌then◌else◌}
use op_move.Chain.EvMap.{EvMap, IsEvMap, size_after}

pub record Table (V : Type 0) : Type 0 where
  pub values : ℕ → List V
  pub count : ℕ
  pub shown : ℕ → List V
  pub shown_count : ℕ

abbrev head? {ℓ} : {A : Type ℓ} → List A → Option A
head? [] = none
head? (x ∷ xs) = some x

abbrev pub table_map : (V : Type 0) → EvMap V
table_map V = record {
  Handle = Table V;
  empty = record { values = λ k. []; count = 0; shown = λ k. []; shown_count = 0 };
  insert = λ k v h. record h {
    values = λ j. if k == j then v ∷ h.values j else h.values j;
    count = size_after (h.values k) h.count;
  };
  refresh = λ h. record h { shown = h.values; shown_count = h.count };
  get_one = λ h k. head? (h.shown k);
  len = λ h. h.shown_count;
  pending = λ h k. h.values k;
  size = λ h. h.count;
  visible = λ h k. h.shown k;
}

pub table_map-IsEvMap : (V : Type 0) → IsEvMap (table_map V)
table_map-IsEvMap V = record {
  pending-empty = λ k. refl;
  size-empty = refl;
  visible-empty = λ k. refl;
  len-empty = refl;
  pending-insert = λ k v h j. refl;
  size-insert = λ k v h. refl;
  visible-insert = λ k v h j. refl;
  len-insert = λ k v h. refl;
  pending-refresh = λ h j. refl;
  size-refresh = λ h. refl;
  visible-refresh = λ h j. refl;
  len-refresh = λ h. refl;
  get_one-none = λ h k e. ap head? e;
  get_one-one = λ h k v e. ap head? e;
  get_one-some = λ h k v vs e. (v, ap head? e);
}
