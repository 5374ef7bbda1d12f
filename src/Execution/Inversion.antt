-- ===== src/Execution/Inversion.antt =====
-- What is known of the steps when a chain of them succeeds.
use op_move.Base.{◌≡◌, refl}
use op_move.Execution.Vm.{Outcome, ok, err, panicked, and, and_then}

pub and-ok :
    {A B : Type 0} (o : Outcome A) (f : A → Outcome B) {b : B}
    → and o f ≡ ok b
    → (a : A) × (o ≡ ok a) × (f a ≡ ok b)
and-ok (ok a) f e = (a, refl, e)
and-ok (err x) f e = cc
and-ok panicked f e = cc

pub and_then-ok :
    {S A B : Type 0} (first : Outcome A × S) (next : A → S → Outcome B × S) {b : B}
    → (and_then first next).0 ≡ ok b
    → (a : A) × (s : S) × (first ≡ (ok a, s)) × ((next a s).0 ≡ ok b)
and_then-ok (ok a, s) next e = (a, s, refl, e)
and_then-ok (err x, s) next e = cc
and_then-ok (panicked, s) next e = cc

pub ok-injective : {A : Type 0} {a b : A} → Outcome.ok a ≡ ok b → a ≡ b
ok-injective e = cc
