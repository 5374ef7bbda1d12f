-- ===== src/Execution/NotUser.antt =====
-- Outcomes that are no user error, which the crate promises of its entry points.
use op_move.Base.{Option, none, some}
use op_move.Error
use op_move.Error.{Error, Result, user, invalid_transaction, invariant_violation}
use op_move.Execution.Vm.{
  Outcome, ok, err, panicked, of_result, map_err, and, and_then, expect, caught,
}

-- The outcome is no user error.
abbrev pub NotUser : {A : Type 0} → Outcome A → Type 0
NotUser (err (user e)) = ⊥
NotUser _ = Unit

abbrev pub NotUserResult : {A : Type 0} → Result A → Type 0
NotUserResult (Error.err (user e)) = ⊥
NotUserResult _ = Unit

pub and-NotUser :
    {A B : Type 0} (o : Outcome A) (f : A → Outcome B)
    → NotUser o
    → ((a : A) → NotUser (f a))
    → NotUser (and o f)
and-NotUser (ok a) f h k = k a
and-NotUser (err (user e)) f h k = absurd h
and-NotUser (err (invalid_transaction e)) f h k = tt
and-NotUser (err (invariant_violation e)) f h k = tt
and-NotUser panicked f h k = tt

pub and_then-NotUser :
    {S A B : Type 0} (first : Outcome A × S) (next : A → S → Outcome B × S)
    → NotUser first.0
    → ((a : A) (s : S) → NotUser (next a s).0)
    → NotUser (and_then first next).0
and_then-NotUser (ok a, s) next h k = k a s
and_then-NotUser (err (user e), s) next h k = absurd h
and_then-NotUser (err (invalid_transaction e), s) next h k = tt
and_then-NotUser (err (invariant_violation e), s) next h k = tt
and_then-NotUser (panicked, s) next h k = tt

pub caught-NotUser : {S A : Type 0} (o : Outcome A × S) → NotUser (caught o).0
caught-NotUser (ok a, s) = tt
caught-NotUser (err e, s) = tt
caught-NotUser (panicked, s) = tt

pub expect-NotUser : {A : Type 0} (o : Option A) → NotUser (expect o)
expect-NotUser none = tt
expect-NotUser (some a) = tt

pub of_result-NotUser : {A : Type 0} (r : Result A) → NotUserResult r → NotUser (of_result r)
of_result-NotUser (Error.ok a) h = tt
of_result-NotUser (Error.err (user e)) h = absurd h
of_result-NotUser (Error.err (invalid_transaction e)) h = tt
of_result-NotUser (Error.err (invariant_violation e)) h = tt

-- An error replaced by one that is no user error.
pub replaced-NotUser :
    {A : Type 0} (e : Error) (o : Outcome A)
    → NotUser {A = A} (err e)
    → NotUser (map_err (λ _. e) o)
replaced-NotUser e (ok a) h = tt
replaced-NotUser e (err x) h = h
replaced-NotUser e panicked h = tt
