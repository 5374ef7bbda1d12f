-- ===== src/Execution/Calls/Scripts.antt =====
-- The arguments of a script: the signer stands where the script takes one, and the others are used up.
use op_move.Base.{
  ℕ, suc, ◌≡◌, ◌≢◌, refl, ◌∙◌, ap, List, [], ◌∷◌, Option, none, some, Bytes, length, if◌then◌else◌,
  arith, Bool-cases, inl, inr,
}
use op_move.MoveTypes.{TypeTag}
use op_move.Error.{invalid_transaction, mismatched_argument_count}
use op_move.Execution.Vm.{Vm, done, Outcome, ok, err, and}
use op_move.Execution.Session.{RuntimeType, Session}
use op_move.Execution.Calls.{strip_reference, is_signer, script_args}

module _ {vm : Vm} (session : Session vm) (s : vm.State) where
  -- The parameters have these type tags, and the arguments these bytes.
  pub data HaveTags : List RuntimeType → List TypeTag → Type 0 where
    none_left : HaveTags [] []
    typed :
        {ty inner : RuntimeType} {tag : TypeTag} {tys : List RuntimeType} {tags : List TypeTag}
        → strip_reference ty ≡ ok inner
        → session.get_type_tag inner s ≡ done tag
        → HaveTags tys tags
        → HaveTags (ty ∷ tys) (tag ∷ tags)

  pub data HaveBytes : List Bytes → List Bytes → Type 0 where
    none_left : HaveBytes [] []
    serialised :
        {arg bytes : Bytes} {given values : List Bytes}
        → session.simple_serialize (session.value_of_argument arg) ≡ some bytes
        → HaveBytes given values
        → HaveBytes (arg ∷ given) (bytes ∷ values)

-- What a script is called with.
abbrev cons_to : Bytes → Option (List Bytes) → Option (List Bytes)
cons_to value none = none
cons_to value (some result) = some (value ∷ result)

abbrev pub fill : Bytes → List TypeTag → List Bytes → Option (List Bytes)
fill signer [] [] = some []
fill signer [] (value ∷ values) = none
fill signer (tag ∷ tags) [] = if is_signer tag then cons_to signer (fill signer tags []) else none
fill signer (tag ∷ tags) (value ∷ values) =
    if is_signer tag
    then cons_to signer (fill signer tags (value ∷ values))
    else cons_to value (fill signer tags values)

-- The parameters that take no signer.
abbrev pub others : List TypeTag → ℕ
others [] = 0
others (tag ∷ tags) = if is_signer tag then others tags else suc (others tags)

-- The entries that stand at the signers among the parameters, and at the others.
abbrev pub at_signers : List TypeTag → List Bytes → List Bytes
at_signers (tag ∷ tags) (value ∷ values) =
    if is_signer tag then value ∷ at_signers tags values else at_signers tags values
at_signers _ _ = []

abbrev pub at_others : List TypeTag → List Bytes → List Bytes
at_others (tag ∷ tags) (value ∷ values) =
    if is_signer tag then at_others tags values else value ∷ at_others tags values
at_others _ _ = []

abbrev pub AreAll : Bytes → List Bytes → Type 0
AreAll signer [] = Unit
AreAll signer (value ∷ values) = (value ≡ signer) × AreAll signer values

abbrev verdict : Option (List Bytes) → Outcome (List Bytes)
verdict none = err (invalid_transaction mismatched_argument_count)
verdict (some result) = ok result

cons-verdict :
    (value : Bytes) (o : Option (List Bytes))
    → and (verdict o) (λ result. ok (value ∷ result)) ≡ verdict (cons_to value o)
cons-verdict value none = refl
cons-verdict value (some result) = refl

module _ {vm : Vm} (session : Session vm) (s : vm.State) (signer : Bytes) where
  script_args-fill :
      (tys : List RuntimeType) (tags : List TypeTag) (given values : List Bytes)
      → HaveTags session s tys tags
      → HaveBytes session s given values
      → script_args session signer tys given s ≡ verdict (fill signer tags values)
  unfolding script_args
  script_args-fill [] [] [] [] none_left none_left = refl
  script_args-fill [] [] (arg ∷ given) (value ∷ values) none_left (serialised e b) = refl
  script_args-fill (ty ∷ tys) (tag ∷ tags) [] [] (typed stripped tagged h) none_left =
      elim (Bool-cases (is_signer tag)) [
        | inl e ↦
            rw (stripped, tagged, e, script_args-fill tys tags [] [] h none_left)
              (cons-verdict signer (fill signer tags []))
        | inr e ↦ rw (stripped, tagged, e)
      ]
  script_args-fill (ty ∷ tys) (tag ∷ tags) (arg ∷ given) (value ∷ values) (typed stripped tagged h)
        (serialised v b) =
      elim (Bool-cases (is_signer tag)) [
        | inl e ↦
            rw
              (
                stripped,
                tagged,
                e,
                script_args-fill tys tags (arg ∷ given) (value ∷ values) h (serialised v b),
              )
              (cons-verdict signer (fill signer tags (value ∷ values)))
        | inr e ↦
            rw (stripped, tagged, e, v, script_args-fill tys tags given values h b)
              (cons-verdict value (fill signer tags values))
      ]
  script_args-fill [] [] [] (value ∷ values) h b = elim b [ ]
  script_args-fill [] [] (arg ∷ given) [] h b = elim b [ ]
  script_args-fill [] (tag ∷ tags) given values h b = elim h [ ]
  script_args-fill (ty ∷ tys) [] given values h b = elim h [ ]
  script_args-fill (ty ∷ tys) (tag ∷ tags) [] (value ∷ values) h b = elim b [ ]
  script_args-fill (ty ∷ tys) (tag ∷ tags) (arg ∷ given) [] h b = elim b [ ]

  -- What `fill` comes to where the numbers fit.
  abbrev IsFilled : List TypeTag → List Bytes → Option (List Bytes) → Type 0
  IsFilled tags values o =
      (built : List Bytes) × (o ≡ some built)
      × (length built ≡ length tags)
      × (at_others tags built ≡ values)
      × AreAll signer (at_signers tags built)

  fill-others :
      (tags : List TypeTag) (values : List Bytes)
      → others tags ≡ length values
      → IsFilled tags values (fill signer tags values)
  fill-others [] [] h = ([], refl, refl, refl, tt)
  fill-others [] (value ∷ values) h = ground arith
  fill-others (tag ∷ tags) [] h = elim (Bool-cases (is_signer tag)) [
    | inl e ↦
        let (built, made, same, kept, all) = fill-others tags [] (ground arith) in
        (signer ∷ built, rw (e, made), omega arith, rw e kept, rw e (refl, all))
    | inr e ↦ ground arith
  ]
  fill-others (tag ∷ tags) (value ∷ values) h = elim (Bool-cases (is_signer tag)) [
    | inl e ↦
        let (built, made, same, kept, all) = fill-others tags (value ∷ values) (ground arith) in
        (signer ∷ built, rw (e, made), omega arith, rw e kept, rw e (refl, all))
    | inr e ↦
        let (built, made, same, kept, all) = fill-others tags values (ground arith) in
        (value ∷ built, rw (e, made), omega arith, rw (e, kept), rw e all)
  ]

  fill-none :
      (tags : List TypeTag) (values : List Bytes)
      → others tags ≢ length values
      → fill signer tags values ≡ none
  fill-none [] [] h = absurd (h refl)
  fill-none [] (value ∷ values) h = refl
  fill-none (tag ∷ tags) [] h = elim (Bool-cases (is_signer tag)) [
    | inl e ↦ rw (e, fill-none tags [] (ground arith))
    | inr e ↦ rw e
  ]
  fill-none (tag ∷ tags) (value ∷ values) h = elim (Bool-cases (is_signer tag)) [
    | inl e ↦ rw (e, fill-none tags (value ∷ values) (ground arith))
    | inr e ↦ rw (e, fill-none tags values (ground arith))
  ]

  -- If the types of the parameters and the given arguments are readable, and as many arguments are
  -- given as there are parameters that take no signer, then the script is called with one argument for
  -- each parameter: the signer where one is taken, and the given arguments, in their order, elsewhere.
  pub script_args-others :
      (tys : List RuntimeType) (tags : List TypeTag) (given values : List Bytes)
      → HaveTags session s tys tags
      → HaveBytes session s given values
      → others tags ≡ length values
      → (built : List Bytes) × (script_args session signer tys given s ≡ ok built)
        × (length built ≡ length tags)
        × (at_others tags built ≡ values)
        × AreAll signer (at_signers tags built)
  script_args-others tys tags given values h b same =
      let (built, made, same_length, kept, all) = fill-others tags values same in
      (built, script_args-fill tys tags given values h b ∙ ap verdict made, same_length, kept, all)

  -- With any other number of arguments the transaction is refused.
  pub script_args-mismatch :
      (tys : List RuntimeType) (tags : List TypeTag) (given values : List Bytes)
      → HaveTags session s tys tags
      → HaveBytes session s given values
      → others tags ≢ length values
      → script_args session signer tys given s ≡ err (invalid_transaction mismatched_argument_count)
  script_args-mismatch tys tags given values h b other =
      script_args-fill tys tags given values h b ∙ ap verdict (fill-none tags values other)
