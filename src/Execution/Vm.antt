-- ===== src/Execution/Vm.antt =====
-- The session of the Move VM with its gas meter, as far as the execution crate drives it: calls of
-- functions by name, over a state that a call changes also where it fails.
use op_move.Base.{ℕ, Bool, List, Option, none, some, Bytes}
use op_move.MoveTypes.{VmError, MoveValue, MoveTypeLayout}
use op_move.Error
use op_move.Error.{Error, Result}

pub data VmResult (A : Type 0) : Type 0 where
  done : A → VmResult A
  failed : VmError → VmResult A

-- The functions of the framework's modules `account` and `eth_token` that the crate calls by name.
pub data FrameworkFunction : Type 0 where
  create_account_if_does_not_exist get_sequence_number increment_sequence_number : FrameworkFunction
  mint get_balance transfer : FrameworkFunction

pub record Vm : Type 1 where
  -- Session and gas meter.
  pub State : Type 0
  pub Function : Type 0
  -- `execute_function_bypass_visibility` of a function of a framework module, whether its gas is
  -- metered, with its return values as bytes with a layout.
  pub call :
      Bool
      → FrameworkFunction
      → List MoveValue
      → State
      → VmResult (List (Bytes × MoveTypeLayout)) × State
  -- `ValueSerDeContext::deserialize` with `as_move_value`.
  pub deserialize : Bytes → MoveTypeLayout → Option MoveValue
  pub load_function : FrameworkFunction → State → VmResult Function
  pub execute_entry_function :
      Bool → Function → List MoveValue → State → VmResult (Unit {0}) × State
  -- The two intrinsic charges of a transaction of some size; `false` is out of gas.
  pub charge_intrinsic_gas : ℕ → State → Bool × State
  pub charge_io_gas : ℕ → State → Bool × State

-- What a step comes to: a value, an error of the program, or a panic.
pub data Outcome (A : Type 0) : Type 0 where
  ok : A → Outcome A
  err : Error → Outcome A
  panicked : Outcome A

abbrev pub of_result : {A : Type 0} → Result A → Outcome A
of_result (Error.ok a) = ok a
of_result (Error.err e) = err e

-- The `?` on an outcome.
abbrev pub and : {A B : Type 0} → Outcome A → (A → Outcome B) → Outcome B
and (ok a) f = f a
and (err e) f = err e
and panicked f = panicked

-- `map_err`.
abbrev pub map_err : {A : Type 0} → (Error → Error) → Outcome A → Outcome A
map_err f (ok a) = ok a
map_err f (err e) = err (f e)
map_err f panicked = panicked

-- `expect` and `unwrap`.
abbrev pub expect : {A : Type 0} → Option A → Outcome A
expect (some a) = ok a
expect none = panicked

-- A step over the state of the VM.
abbrev pub Run : Vm → Type 0 → Type 0
Run vm A = vm.State → Outcome A × vm.State

abbrev pub and_then : {S A B : Type 0} → Outcome A × S → (A → S → Outcome B × S) → Outcome B × S
and_then (ok a, s) f = f a s
and_then (err e, s) f = (err e, s)
and_then (panicked, s) f = (panicked, s)

infixl 5 ◌>>=◌
abbrev pub ◌>>=◌ :
    {S A B : Type 0} → (S → Outcome A × S) → (A → S → Outcome B × S) → S → Outcome B × S
(first >>= next) s = and_then (first s) next

-- The steps that only return, or only fail.
abbrev pub pure : {S A : Type 0} → A → S → Outcome A × S
pure a s = (ok a, s)

abbrev pub throw : {S A : Type 0} → Error → S → Outcome A × S
throw e s = (err e, s)

abbrev pub lift : {S A : Type 0} → Outcome A → S → Outcome A × S
lift r s = (r, s)

-- `map_err` on the result of a call, and the `?` on it.
abbrev pub or_error : {A : Type 0} → (VmError → Error) → VmResult A → Outcome A
or_error f (done a) = ok a
or_error f (failed e) = err (f e)

abbrev pub attempt : {S A : Type 0} → (VmError → Error) → (S → VmResult A × S) → S → Outcome A × S
attempt f g s = (or_error f (g s).0, (g s).1)

-- A call that reads the state only.
abbrev pub inspect : {S A : Type 0} → (VmError → Error) → (S → VmResult A) → S → Outcome A × S
inspect f g s = (or_error f (g s), s)

-- The outcome of a step that may fail, as a value; a panic stays one.
abbrev pub caught : {S A : Type 0} → Outcome A × S → Outcome (Result A) × S
caught (ok a, s) = (ok (Error.ok a), s)
caught (err e, s) = (ok (Error.err e), s)
caught (panicked, s) = (panicked, s)
