-- ===== src/Execution/Calls/Arguments.antt =====
-- A function runs on validated arguments only, and a script on the arguments given with the signer put
-- in.
use op_move.Base.{
  ◌≡◌, Bool, true, false, List, [], ◌∷◌, Option, none, some, AccountAddress, Bytes, length,
  if◌then◌else◌, arith,
}
use op_move.MoveTypes.{VmError, TypeTag, MoveValue, MoveTypeLayout}
use op_move.Error.{Error, from_vm_error}
use op_move.Execution.Vm.{Vm, VmResult, done, failed, ok, or_error}
use op_move.Execution.Inversion.{and-ok}
use op_move.Execution.Session.{RuntimeType, Session}
use op_move.Execution.Calls.{
  or_fail, strip_reference, validate_bytes, validate_argument, validate_arguments,
}
use op_move.Tags.{validate_entry_type_tag, validate_entry_value}
use op_move.Tags.Layouts.{has_value_invariants}

or_error-ok :
    {A : Type 0} (f : VmError → Error) (r : VmResult A) {a : A} → or_error f r ≡ ok a → r ≡ done a
or_error-ok f (done a) e = cc
or_error-ok f (failed x) e = cc

or_fail-ok : {A : Type 0} (o : Option A) (e : Error) {a : A} → or_fail o e ≡ ok a → o ≡ some a
or_fail-ok (some a) e h = cc
or_fail-ok none e h = cc

module _ {vm : Vm} (session : Session vm) (signer : AccountAddress) (s : vm.State) where
  -- The value that the bytes hold passes, unless its layout has no invariants.
  abbrev pub PassesAt : TypeTag → MoveTypeLayout → Bytes → Bool → Type 0
  PassesAt tag layout bytes false = Unit
  PassesAt tag layout bytes true =
      (value : MoveValue) × (vm.deserialize bytes layout ≡ some value)
      × (validate_entry_value (session.tag_env s) signer tag value ≡ ok tt)

  -- The argument is of an allowed type, and its value is allowed for the type.
  pub record IsValidArgument (ty : RuntimeType) (bytes : Bytes) : Type 0 where
    pub inner : RuntimeType
    pub tag : TypeTag
    pub layout : MoveTypeLayout
    pub inner-eq : strip_reference ty ≡ ok inner
    pub tag-eq : session.get_type_tag inner s ≡ done tag
    pub layout-eq : session.get_type_layout inner s ≡ done layout
    pub allowed : validate_entry_type_tag tag ≡ ok tt
    pub passes : PassesAt tag layout bytes (has_value_invariants layout)

  pub data AreValidArguments : List RuntimeType → List Bytes → Type 0 where
    none_left : AreValidArguments [] []
    argument :
        {ty : RuntimeType} {bytes : Bytes} {tys : List RuntimeType} {args : List Bytes}
        → IsValidArgument ty bytes
        → AreValidArguments tys args
        → AreValidArguments (ty ∷ tys) (bytes ∷ args)

  passes_lem :
      (tag : TypeTag) (layout : MoveTypeLayout) (bytes : Bytes) (b : Bool)
      → (if b then validate_bytes session signer tag layout bytes s else ok tt) ≡ ok tt
      → PassesAt tag layout bytes b
  unfolding validate_bytes
  passes_lem tag layout bytes false h = tt
  passes_lem tag layout bytes true h =
      let (value, read, valid) = and-ok (or_fail (vm.deserialize bytes layout) _) _ h in
      (value, or_fail-ok (vm.deserialize bytes layout) _ read, valid)

  validate_argument-ok :
      (ty : RuntimeType) (bytes : Bytes)
      → validate_argument session signer ty bytes s ≡ ok tt
      → IsValidArgument ty bytes
  unfolding validate_argument
  validate_argument-ok ty bytes h =
      let (inner, stripped, h₁) = and-ok (strip_reference ty) _ h in
      let (tag, tagged, h₂) = and-ok (or_error from_vm_error (session.get_type_tag inner s)) _ h₁ in
      let (_, allowed, h₃) = and-ok (validate_entry_type_tag tag) _ h₂ in
      let (layout, laid_out, h₄) =
        and-ok (or_error from_vm_error (session.get_type_layout inner s)) _ h₃ in
      record {
        inner = inner;
        tag = tag;
        layout = layout;
        inner-eq = stripped;
        tag-eq = or_error-ok from_vm_error (session.get_type_tag inner s) tagged;
        layout-eq = or_error-ok from_vm_error (session.get_type_layout inner s) laid_out;
        allowed = allowed;
        passes = passes_lem tag layout bytes (has_value_invariants layout) h₄;
      }

  pub validate_arguments-ok :
      (tys : List RuntimeType) (args : List Bytes)
      → length tys ≡ length args
      → validate_arguments session signer tys args s ≡ ok tt
      → AreValidArguments tys args
  unfolding validate_arguments
  validate_arguments-ok [] [] same h = none_left
  validate_arguments-ok [] (bytes ∷ args) same h = ground arith
  validate_arguments-ok (ty ∷ tys) [] same h = ground arith
  validate_arguments-ok (ty ∷ tys) (bytes ∷ args) same h =
      let (_, valid, rest) = and-ok (validate_argument session signer ty bytes s) _ h in
      argument (validate_argument-ok ty bytes valid)
        (validate_arguments-ok tys args (omega arith) rest)
