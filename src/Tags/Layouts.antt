-- ===== src/Tags/Layouts.antt =====
-- execution/src/layout.rs: which layouts need their values checked, and that the values of the others
-- pass the check.
use op_move.Base.{◌∙◌, ◌≡◌, refl, Bool, true, false, AccountAddress}
use op_move.MoveTypes.{TypeTag, MoveValue, MoveValues, MoveTypeLayout}
use op_move.Execution.Vm.{ok}
use op_move.Tags.{TagEnv, validate_entry_value}
use op_move.Tags.Values.{check, check_all}
use op_move.Tags.Rounds.{validate_entry_value-eq-check}

unfoldable pub has_value_invariants : MoveTypeLayout → Bool
has_value_invariants MoveTypeLayout.signer = true
has_value_invariants (MoveTypeLayout.vector layout) = has_value_invariants layout
has_value_invariants (MoveTypeLayout.struct _) = true
has_value_invariants (MoveTypeLayout.native _ layout) = has_value_invariants layout
has_value_invariants _ = false

-- The layout is one that a type with this tag can have: a signer or a struct is laid out as such, and
-- a vector as a vector of its entries.
abbrev pub IsLayoutOf : TypeTag → MoveTypeLayout → Type 0
IsLayoutOf tag (MoveTypeLayout.native _ layout) = IsLayoutOf tag layout
IsLayoutOf TypeTag.signer MoveTypeLayout.signer = Unit
IsLayoutOf TypeTag.signer layout = ⊥
IsLayoutOf (TypeTag.struct _ _ _ _) (MoveTypeLayout.struct _) = Unit
IsLayoutOf (TypeTag.struct _ _ _ _) layout = ⊥
IsLayoutOf (TypeTag.vector tag) (MoveTypeLayout.vector layout) = IsLayoutOf tag layout
IsLayoutOf (TypeTag.vector tag) layout = ⊥
IsLayoutOf _ layout = Unit

-- The check of a value whose layout has no invariants.
module _ (env : TagEnv) (signer : AccountAddress) where
  mutual
    unfolding check has_value_invariants

    check_passes :
        (layout : MoveTypeLayout) (tag : TypeTag) (value : MoveValue)
        → IsLayoutOf tag layout
        → has_value_invariants layout ≡ false
        → check env signer tag value ≡ ok tt
    check_passes (MoveTypeLayout.native _ layout) tag value is_layout none_left =
        check_passes layout tag value is_layout none_left
    check_passes (MoveTypeLayout.vector layout) (TypeTag.vector tag) (MoveValue.vector values)
          is_layout none_left =
        check_all_passes layout tag values is_layout none_left
    check_passes (MoveTypeLayout.vector layout) (TypeTag.vector tag) value is_layout none_left =
        refl
    check_passes MoveTypeLayout.signer TypeTag.signer value is_layout none_left = cc
    check_passes (MoveTypeLayout.struct _) (TypeTag.struct _ _ _ _) value is_layout none_left = cc
    check_passes layout TypeTag.signer value is_layout none_left = absurd is_layout
    check_passes layout (TypeTag.vector tag) value is_layout none_left = absurd is_layout
    check_passes layout (TypeTag.struct _ _ _ _) value is_layout none_left = absurd is_layout
    check_passes _ _ value is_layout none_left = refl

    check_all_passes :
        (layout : MoveTypeLayout) (tag : TypeTag) (values : MoveValues)
        → IsLayoutOf tag layout
        → has_value_invariants layout ≡ false
        → check_all env signer tag values ≡ ok tt
    check_all_passes layout tag MoveValues.nil is_layout none_left = refl
    check_all_passes layout tag (MoveValues.cons value values) is_layout none_left =
        rw (check_all_passes layout tag values is_layout none_left)
          (check_passes layout tag value is_layout none_left)

  -- A value whose type's layout has no invariants by the value passes the validation, so that skipping
  -- it lets the same arguments through.
  pub validate_entry_value-has_value_invariants :
      (layout : MoveTypeLayout) (tag : TypeTag) (value : MoveValue)
      → IsLayoutOf tag layout
      → has_value_invariants layout ≡ false
      → validate_entry_value env signer tag value ≡ ok tt
  validate_entry_value-has_value_invariants layout tag value is_layout none_left =
      validate_entry_value-eq-check env signer tag value
      ∙ check_passes layout tag value is_layout none_left
