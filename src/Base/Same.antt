-- ===== src/Base/Same.antt =====
-- Tests whether two lists are the same, after a test on their entries.
use mathlib.Core.Path.{◌≡◌, refl}
use mathlib.Core.Logic.{◌↔◌}
use mathlib.Core.Bool.{Bool, true, false, ◌&&◌}
use mathlib.Core.List.{List, [], ◌∷◌}
use Prim.Native.Nat.{ℕ}
use op_move.Base.Tests.{◌==◌, ==_iff}

-- `PartialEq` of vectors.
unfoldable pub same_list {ℓ} : {A : Type ℓ} → (A → A → Bool) → List A → List A → Bool
same_list eq [] [] = true
same_list eq [] (y ∷ ys) = false
same_list eq (x ∷ xs) [] = false
same_list eq (x ∷ xs) (y ∷ ys) = eq x y && same_list eq xs ys

pub and_iff :
    {P Q : Type 0} (b c : Bool) → ((b ≡ true) ↔ P) → ((c ≡ true) ↔ Q) → ((b && c) ≡ true) ↔ (P × Q)
and_iff true c p q = ((λ e. (p.0 refl, q.0 e)), λ h. q.1 h.1)
and_iff false c p q = ((λ e. cc), λ h. let e = p.1 h.0 in cc)

pub same_list_iff :
    {A : Type 0} (eq : A → A → Bool)
    → ((x y : A) → (eq x y ≡ true) ↔ (x ≡ y))
    → (xs ys : List A) → (same_list eq xs ys ≡ true) ↔ (xs ≡ ys)
unfolding same_list
same_list_iff eq h [] [] = ((λ e. refl), λ e. refl)
same_list_iff eq h [] (y ∷ ys) = ((λ e. cc), λ e. cc)
same_list_iff eq h (x ∷ xs) [] = ((λ e. cc), λ e. cc)
same_list_iff eq h (x ∷ xs) (y ∷ ys) =
    let both = and_iff (eq x y) (same_list eq xs ys) (h x y) (same_list_iff eq h xs ys) in
    ((λ e. let p = both.0 e in cc (p.0, p.1)), λ e. both.1 (cc, cc))

-- On byte strings.
unfoldable pub same_bytes : List ℕ → List ℕ → Bool
unfolding same_list
same_bytes = same_list ◌==◌

pub same_bytes_iff : (xs ys : List ℕ) → (same_bytes xs ys ≡ true) ↔ (xs ≡ ys)
unfolding same_bytes
same_bytes_iff xs ys = same_list_iff ◌==◌ ==_iff xs ys
