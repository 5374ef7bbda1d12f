-- ===== src/Api/Checks.antt =====
-- The tests of api/src/methods/new_payload.rs as equations.
use Prim.Native.String.{String}
use op_move.Base.{
  ◌≡◌, refl, ap, Bool, true, false, not, List, [], ◌∷◌, ◌↔◌, arith, ==_iff, if◌then◌else◌, B256,
  is_some,
}
use op_move.Transaction.Parse.{is_empty}
use op_move.Api.{WithdrawalV1, same_withdrawal, PayloadStatusV1, ApiResult, refused, confirmed}

abbrev is_confirmed : ApiResult PayloadStatusV1 → Bool
is_confirmed (ApiResult.err e) = false
is_confirmed (ApiResult.ok s) = is_some s.latest_valid_hash

pub same_withdrawal_iff : (v w : WithdrawalV1) → (same_withdrawal v w ≡ true) ↔ (v ≡ w)
unfolding same_withdrawal
same_withdrawal_iff v w = ((λ e. grind (arith, ==_iff)), λ e. grind (arith, ==_iff))

-- One test of the validation: it goes on exactly if the test holds.
pub passes_iff :
    {P Q : Type 0} (b : Bool) (why : String) (hash : B256) (rest : ApiResult PayloadStatusV1)
    → ((b ≡ true) ↔ P)
    → ((rest ≡ confirmed hash) ↔ Q)
    → ((if not b then refused why else rest) ≡ confirmed hash) ↔ (P × Q)
passes_iff true why hash rest p q = ((λ e. (p.0 refl, q.0 e)), λ h. q.1 h.1)
passes_iff false why hash rest p q =
    ((λ e. let f = ap is_confirmed e in cc), λ h. let e = p.1 h.0 in cc)

pub is_empty_iff : {A : Type 0} (xs : List A) → (is_empty xs ≡ true) ↔ (xs ≡ [])
is_empty_iff [] = ((λ e. refl), λ e. refl)
is_empty_iff (x ∷ xs) = ((λ e. cc), λ e. cc)

-- The last test.
pub last_iff :
    {P : Type 0} (b : Bool) (why : String) (hash : B256)
    → ((b ≡ true) ↔ P)
    → ((if not b then refused why else confirmed hash) ≡ confirmed hash) ↔ P
last_iff b why hash p =
    let both = passes_iff b why hash (confirmed hash) p ((λ e. tt), λ u. refl) in
    ((λ e. (both.0 e).0), λ h. both.1 (h, tt))
