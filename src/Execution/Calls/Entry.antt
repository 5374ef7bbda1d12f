-- ===== src/Execution/Calls/Entry.antt =====
-- An entry function runs on validated arguments only.
use op_move.Base.{
  ◌≡◌, refl, ◌⊎◌, inl, inr, Bool, true, false, AccountAddress, length, ◌==◌, arith, Bool-cases,
}
use op_move.MoveTypes.{VmError}
use op_move.Error.{Error, from_vm_error}
use op_move.Transaction.Types.{EntryFunction}
use op_move.Execution.Vm.{Vm, VmResult, done, failed, Outcome, ok, err, panicked, attempt}
use op_move.Execution.Session.{Session}
use op_move.Execution.Calls.{validate_arguments, checked_entry_function, execute_entry_function}
use op_move.Execution.Calls.Arguments.{AreValidArguments, validate_arguments-ok}

pub VmResult-cases :
    {A : Type 0} (r : VmResult A) → ((a : A) × (r ≡ done a)) ⊎ ((e : VmError) × (r ≡ failed e))
VmResult-cases (done a) = inl (a, refl)
VmResult-cases (failed e) = inr (e, refl)

pub data OutcomeCases {A : Type 0} : Outcome A → Type 0 where
  is_ok : {o : Outcome A} (a : A) → o ≡ ok a → OutcomeCases o
  is_err : {o : Outcome A} (e : Error) → o ≡ err e → OutcomeCases o
  is_panicked : {o : Outcome A} → o ≡ panicked → OutcomeCases o

pub Outcome-cases : {A : Type 0} (o : Outcome A) → OutcomeCases o
Outcome-cases (ok a) = is_ok a refl
Outcome-cases (err e) = is_err e refl
Outcome-cases panicked = is_panicked refl

abbrev pub succeeds : {A : Type 0} → Outcome A → Bool
succeeds (ok a) = true
succeeds _ = false

module _ {vm : Vm} (session : Session vm) (entry_fn : EntryFunction) (signer : AccountAddress)
    (s : vm.State) where
  abbrev load : VmResult session.Loaded
  load = session.load_function entry_fn.module_id entry_fn.function entry_fn.ty_args s

  -- Nothing has run, and the transaction fails.
  abbrev pub Refused : Outcome (Unit {0}) × vm.State → Type 0
  Refused (o, t) = (succeeds o ≡ false) × (t ≡ s)

  abbrev pub Runs : Outcome (Unit {0}) × vm.State → Type 0
  Runs result =
      (function : session.Loaded) × (session.load_function entry_fn.module_id entry_fn.function
          entry_fn.ty_args s
        ≡ done function)
      × AreValidArguments session signer s (session.param_tys function) entry_fn.args
      × (result ≡ attempt from_vm_error (session.execute_entry_function function entry_fn.args) s)

  checked_lem :
      (function : session.Loaded)
      → load ≡ done function
      → length (session.param_tys function) ≡ length entry_fn.args
      → Refused (checked_entry_function session entry_fn signer (session.param_tys function) s)
        ⊎ Runs (checked_entry_function session entry_fn signer (session.param_tys function) s)
  unfolding checked_entry_function
  checked_lem function loaded same =
      elim (Outcome-cases
        (validate_arguments session signer (session.param_tys function) entry_fn.args s)) [
          | is_ok _ e ↦
              rw (e, loaded)
                (inr (
                  function,
                  refl,
                  validate_arguments-ok session signer s (session.param_tys function) entry_fn.args
                      same e,
                  refl,
                ))
          | is_err x e ↦ rw e (inl (refl, refl))
          | is_panicked e ↦ rw e (inl (refl, refl))
        ]

  same_count :
      (function : session.Loaded)
      → load ≡ done function
      → (length (session.param_tys function) == length entry_fn.args) ≡ true
      → execute_entry_function session entry_fn signer s
        ≡ checked_entry_function session entry_fn signer (session.param_tys function) s
  unfolding execute_entry_function
  same_count function loaded same = rw (loaded, same)

  other_count :
      (function : session.Loaded)
      → load ≡ done function
      → (length (session.param_tys function) == length entry_fn.args) ≡ false
      → Refused (execute_entry_function session entry_fn signer s)
  unfolding execute_entry_function
  other_count function loaded other = rw (loaded, other) (refl, refl)

  not_loaded :
      (e : VmError) → load ≡ failed e → Refused (execute_entry_function session entry_fn signer s)
  unfolding execute_entry_function
  not_loaded e loaded = rw loaded (refl, refl)

  -- Either the transaction fails before anything has run, or the function is one that can be loaded,
  -- each argument is of an allowed type and holds a value that is allowed for it, and the result is
  -- that of the function on the arguments.
  pub execute_entry_function-checked :
      Refused (execute_entry_function session entry_fn signer s)
      ⊎ Runs (execute_entry_function session entry_fn signer s)
  execute_entry_function-checked = elim (VmResult-cases load) [
    | inl (function, loaded) ↦
        elim (Bool-cases (length (session.param_tys function) == length entry_fn.args)) [
          | inl e ↦ rw (same_count function loaded e) (checked_lem function loaded (ground arith))
          | inr e ↦ inl (other_count function loaded e)
        ]
    | inr (e, loaded) ↦ inl (not_loaded e loaded)
  ]
