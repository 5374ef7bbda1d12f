-- ===== src/Tags/Rounds.antt =====
-- The rounds of the loop over a stack in the validation of values: each takes a value off it, so the
-- number of values bounds them, and the loop is the recursive check.
use Prim.Native.String.{String}
use op_move.Base.Texts.{same_text}
use op_move.Base.{
  ℕ, zero, suc, ◌+◌, ◌≡◌, ◌≤◌, refl, ◌∙◌, ◌||◌, [], ◌∷◌, AccountAddress, ◌==◌, arith, Bool-cases,
  inl, inr,
}
use op_move.MoveTypes.{TypeTag, TypeTags, MoveValue, MoveValues}
use op_move.Execution.Vm.{Outcome, ok, err, panicked, and}
use op_move.Tags.{
  TagEnv, Stack, push_all, push_option, validate_option, validate_string, validate_object_of,
  visit_struct, visit, value_loop, size, size_all, validate_entry_value,
}
use op_move.Tags.Values.{check, check_stack, visit-check}

abbrev stack_size : Stack → ℕ
unfolding size
stack_size [] = 0
stack_size ((tag, value) ∷ stack) = size value + stack_size stack

-- A stack that is left has `n` values at most.
abbrev Fits : ℕ → Outcome Stack → Type 0
Fits n (ok stack) = stack_size stack ≤ n
Fits n (err e) = Unit
Fits n panicked = Unit

size-positive : (value : MoveValue) → 1 ≤ size value
unfolding size
size-positive (MoveValue.vector values) = omega arith
size-positive (MoveValue.struct fields) = omega arith
size-positive _ = omega arith

push_all-size :
    (tag : TypeTag) (values : MoveValues) (stack : Stack)
    → stack_size (push_all tag values stack) ≡ size_all values + stack_size stack
unfolding size
push_all-size tag MoveValues.nil stack = omega arith
push_all-size tag (MoveValues.cons v vs) stack =
    let ih = push_all-size tag vs ((tag, v) ∷ stack) in omega arith

-- A validation that keeps the stack.
kept-Fits :
    (n : ℕ) (stack : Stack) (o : Outcome (Unit {0}))
    → stack_size stack ≤ n
    → Fits n (and o (λ _. ok stack))
kept-Fits n stack (ok _) le = le
kept-Fits n stack (err e) le = tt
kept-Fits n stack panicked le = tt

option-Fits :
    (n : ℕ) (type_args : TypeTags) (fields : MoveValues) (stack : Stack)
    → size_all fields + stack_size stack ≤ n
    → Fits n (and (validate_option fields) (push_option type_args stack))
unfolding size
option-Fits n args MoveValues.nil stack le = tt
option-Fits n args (MoveValues.cons (MoveValue.vector MoveValues.nil) rest) stack le = omega arith
option-Fits n TypeTags.nil
      (MoveValues.cons (MoveValue.vector (MoveValues.cons v MoveValues.nil)) rest) stack le =
    tt
option-Fits n (TypeTags.cons t ts)
      (MoveValues.cons (MoveValue.vector (MoveValues.cons v MoveValues.nil)) rest) stack le =
    omega arith
option-Fits n args
      (MoveValues.cons (MoveValue.vector (MoveValues.cons v (MoveValues.cons w ws))) rest) stack
      le =
    tt
option-Fits n args (MoveValues.cons _ rest) stack le = tt

module _ (env : TagEnv) (signer : AccountAddress) where
  struct-Fits :
      (n : ℕ) (name : String) (type_args : TypeTags) (fields : MoveValues) (stack : Stack)
      → size_all fields + stack_size stack ≤ n
      → Fits n (visit_struct env signer name type_args fields stack)
  unfolding visit_struct size
  struct-Fits n name args fields stack le = elim (Bool-cases (same_text name "String")) [
    | inl e ↦ rw e (kept-Fits n stack (validate_string env fields) (omega arith))
    | inr e ↦ elim (Bool-cases (same_text name "Object")) [
      | inl f ↦ rw (e, f) (kept-Fits n stack (validate_object_of env args fields) (omega arith))
      | inr f ↦ elim (Bool-cases (same_text name "Option")) [
        | inl g ↦ rw (e, f, g) (option-Fits n args fields stack le)
        | inr g ↦
            elim (Bool-cases (same_text name "FixedPoint32" || same_text name "FixedPoint64")) [
              | inl h ↦ rw (e, f, g, h) (omega arith)
              | inr h ↦ rw (e, f, g, h) tt
            ]
      ]
    ]
  ]

  visit-Fits :
      (n : ℕ) (tag : TypeTag) (value : MoveValue) (stack : Stack)
      → size value + stack_size stack ≤ suc n
      → Fits n (visit env signer tag value stack)
  unfolding visit size
  visit-Fits n TypeTag.signer (MoveValue.signer given) stack le =
      elim (Bool-cases (given == signer)) [ inl e ↦ rw e (omega arith) | inr e ↦ rw e tt ]
  visit-Fits n (TypeTag.vector tag) (MoveValue.vector values) stack le =
      rw (push_all-size tag values stack) (omega arith)
  visit-Fits n (TypeTag.struct a m name args) (MoveValue.struct fields) stack le =
      struct-Fits n name args fields stack (omega arith)
  visit-Fits n _ value stack le = let p = size-positive value in omega arith

  -- Two continuations that agree on the stacks that fit.
  and_agrees :
      (n : ℕ) (f g : Stack → Outcome (Unit {0}))
      → ((stack : Stack) → stack_size stack ≤ n → f stack ≡ g stack)
      → (o : Outcome Stack) → Fits n o
      → and o f ≡ and o g
  and_agrees n f g h (ok stack) le = h stack le
  and_agrees n f g h (err e) le = refl
  and_agrees n f g h panicked le = refl

  value_loop-check :
      (fuel : ℕ) (stack : Stack)
      → stack_size stack ≤ fuel
      → value_loop env signer fuel stack ≡ check_stack env signer stack
  unfolding value_loop check_stack size
  value_loop-check fuel [] le = refl
  value_loop-check zero ((tag, value) ∷ stack) le = let p = size-positive value in ground arith
  value_loop-check (suc fuel) ((tag, value) ∷ stack) le =
      and_agrees fuel (value_loop env signer fuel) (check_stack env signer) (value_loop-check fuel)
        (visit env signer tag value stack) (visit-Fits fuel tag value stack le)
      ∙ visit-check env signer tag value stack

  and_ok : (o : Outcome (Unit {0})) → and o (λ _. ok tt) ≡ o
  and_ok (ok tt) = refl
  and_ok (err e) = refl
  and_ok panicked = refl

  -- The loop ends, and comes to the recursive check of the value.
  pub validate_entry_value-eq-check :
      (tag : TypeTag) (value : MoveValue)
      → validate_entry_value env signer tag value ≡ check env signer tag value
  unfolding validate_entry_value check_stack size
  validate_entry_value-eq-check tag value =
      value_loop-check (suc (size value)) ((tag, value) ∷ []) (omega arith)
      ∙ and_ok (check env signer tag value)
