-- ===== src/Tags/Values.antt =====
-- The loop over a stack in the validation of values is the recursive check of a value, from the last
-- entry of a vector to its first.
use Prim.Native.String.{String}
use op_move.Base.Texts.{same_text}
use op_move.Base.{
  ◌≡◌, refl, ◌∙◌, sym, ◌||◌, [], ◌∷◌, AccountAddress, ◌==◌, if◌then◌else◌, Bool-cases, inl, inr,
}
use op_move.MoveTypes.{TypeTag, TypeTags, MoveValue, MoveValues}
use op_move.Error.{
  invalid_transaction, invalid_signer, invalid_option, entry_fn_invariant_violation,
  only_allowed_structs, option_has_inner_type, option_struct_has_field,
  option_struct_field_is_vector,
}
use op_move.Execution.Vm.{Outcome, ok, err, panicked, and}
use op_move.Tags.{
  TagEnv, Stack, push_all, push_option, validate_option, validate_string, validate_object_of,
  visit_struct, visit,
}

module _ (env : TagEnv) (expected_signer : AccountAddress) where
  -- The check by recursion on the value.
  unfoldable mutual
    pub check : TypeTag → MoveValue → Outcome (Unit {0})
    check TypeTag.signer (MoveValue.signer given) =
        if given == expected_signer then ok tt else err (invalid_transaction invalid_signer)
    check (TypeTag.vector inner) (MoveValue.vector array) = check_all inner array
    check (TypeTag.struct _ _ name type_args) (MoveValue.struct fields) =
        let held = check_option type_args fields in
        if same_text name "String"
        then validate_string env fields
        else if same_text name "Object"
        then validate_object_of env type_args fields
        else if same_text name "Option"
        then held
        else if same_text name "FixedPoint32" || same_text name "FixedPoint64"
        then ok tt
        else err (entry_fn_invariant_violation only_allowed_structs)
    check _ _ = ok tt

    pub check_all : TypeTag → MoveValues → Outcome (Unit {0})
    check_all tag MoveValues.nil = ok tt
    check_all tag (MoveValues.cons value values) = and (check_all tag values) (λ _. check tag value)

    pub check_option : TypeTags → MoveValues → Outcome (Unit {0})
    check_option type_args MoveValues.nil =
        err (entry_fn_invariant_violation option_struct_has_field)
    check_option type_args (MoveValues.cons value rest) = check_held type_args value

    pub check_held : TypeTags → MoveValue → Outcome (Unit {0})
    check_held type_args (MoveValue.vector MoveValues.nil) = ok tt
    check_held TypeTags.nil (MoveValue.vector (MoveValues.cons inner MoveValues.nil)) =
        err (entry_fn_invariant_violation option_has_inner_type)
    check_held (TypeTags.cons tag _) (MoveValue.vector (MoveValues.cons inner MoveValues.nil)) =
        check tag inner
    check_held type_args (MoveValue.vector (MoveValues.cons _ (MoveValues.cons _ _))) =
        err (invalid_transaction invalid_option)
    check_held type_args _ = err (entry_fn_invariant_violation option_struct_field_is_vector)

  unfoldable pub check_stack : Stack → Outcome (Unit {0})
  unfolding check
  check_stack [] = ok tt
  check_stack ((tag, value) ∷ stack) = and (check tag value) (λ _. check_stack stack)

and_assoc :
    {A B C : Type 0} (o : Outcome A) (f : A → Outcome B) (g : B → Outcome C)
    → and (and o f) g ≡ and o (λ a. and (f a) g)
and_assoc (ok a) f g = refl
and_assoc (err e) f g = refl
and_assoc panicked f g = refl

module _ (env : TagEnv) (signer : AccountAddress) where
  push_all-check :
      (tag : TypeTag) (values : MoveValues) (stack : Stack)
      → check_stack env signer (push_all tag values stack)
        ≡ and (check_all env signer tag values) (λ _. check_stack env signer stack)
  unfolding check_stack check
  push_all-check tag MoveValues.nil stack = refl
  push_all-check tag (MoveValues.cons v vs) stack =
      push_all-check tag vs ((tag, v) ∷ stack) ∙ sym (and_assoc (check_all env signer tag vs) _ _)

  option-check :
      (type_args : TypeTags) (fields : MoveValues) (stack : Stack)
      → and (and (validate_option fields) (push_option type_args stack)) (check_stack env signer)
        ≡ and (check_option env signer type_args fields) (λ _. check_stack env signer stack)
  unfolding check_stack check
  option-check args MoveValues.nil stack = refl
  option-check args (MoveValues.cons (MoveValue.vector MoveValues.nil) rest) stack = refl
  option-check TypeTags.nil
        (MoveValues.cons (MoveValue.vector (MoveValues.cons v MoveValues.nil)) rest) stack =
      refl
  option-check (TypeTags.cons t ts)
        (MoveValues.cons (MoveValue.vector (MoveValues.cons v MoveValues.nil)) rest) stack =
      refl
  option-check args
        (MoveValues.cons (MoveValue.vector (MoveValues.cons v (MoveValues.cons w ws))) rest) stack =
      refl
  option-check args (MoveValues.cons _ rest) stack = refl

  struct-check :
      (a : AccountAddress) (m name : String) (type_args : TypeTags) (fields : MoveValues)
      (stack : Stack)
      → and (visit_struct env signer name type_args fields stack) (check_stack env signer)
        ≡ and
            (check env signer (TypeTag.struct a m name type_args) (MoveValue.struct fields))
            (λ _. check_stack env signer stack)
  unfolding visit_struct check
  struct-check a m name args fields stack = elim (Bool-cases (same_text name "String")) [
    | inl e ↦ rw e (and_assoc (validate_string env fields) _ _)
    | inr e ↦ elim (Bool-cases (same_text name "Object")) [
      | inl f ↦ rw (e, f) (and_assoc (validate_object_of env args fields) _ _)
      | inr f ↦ elim (Bool-cases (same_text name "Option")) [
        | inl g ↦ rw (e, f, g) (option-check args fields stack)
        | inr g ↦
            elim (Bool-cases (same_text name "FixedPoint32" || same_text name "FixedPoint64")) [
              | inl h ↦ rw (e, f, g, h)
              | inr h ↦ rw (e, f, g, h)
            ]
      ]
    ]
  ]

  pub visit-check :
      (tag : TypeTag) (value : MoveValue) (stack : Stack)
      → and (visit env signer tag value stack) (check_stack env signer)
        ≡ and (check env signer tag value) (λ _. check_stack env signer stack)
  unfolding visit check
  visit-check TypeTag.signer (MoveValue.signer given) stack = elim (Bool-cases (given == signer)) [
    | inl e ↦ rw e
    | inr e ↦ rw e
  ]
  visit-check (TypeTag.vector tag) (MoveValue.vector values) stack = push_all-check tag values stack
  visit-check (TypeTag.struct a m name args) (MoveValue.struct fields) stack =
      struct-check a m name args fields stack
  visit-check _ _ stack = refl
