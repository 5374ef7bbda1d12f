-- ===== src/Tags/Types.antt =====
-- Which types the validation of a type tag lets through.
use Prim.Native.String.{String}
use mathlib.Core.Path.{subst}
use op_move.Base.Texts.{same_text}
use op_move.Base.{
  ◌≡◌, refl, Bool, true, false, ◌&&◌, ◌||◌, not, AccountAddress, ◌==◌, if◌then◌else◌, Bool-cases,
  inl, inr,
}
use op_move.MoveTypes.{TypeTag, TypeTags}
use op_move.Error.{invalid_transaction, disallowed_entry_function_type}
use op_move.Execution.Vm.{Outcome, ok, err}
use op_move.Tags.{is_allowed_struct, type_tag_loop, type_args_loop, validate_entry_type_tag}

-- The five structs of the framework whose values can be built from bytes.
abbrev pub is_framework_type : AccountAddress → String → String → Bool
is_framework_type address module_name name =
    (1 == address)
    && ((same_text "string" module_name && same_text "String" name)
        || ((same_text "object" module_name && same_text "Object" name)
            || ((same_text "option" module_name && same_text "Option" name)
                || ((same_text "fixed_point32" module_name && same_text "FixedPoint32" name)
                    || (same_text "fixed_point64" module_name && same_text "FixedPoint64" name)))))

-- A type is allowed if it is primitive, a vector of an allowed type, or one of those structs, where
-- an option is of an allowed type.
unfoldable mutual
  pub allowed : TypeTag → Bool
  allowed (TypeTag.vector inner) = allowed inner
  allowed (TypeTag.struct address module_name name type_args) =
      is_framework_type address module_name name
      && (not (same_text name "Option") || allowed_first type_args)
  allowed _ = true

  pub allowed_first : TypeTags → Bool
  allowed_first TypeTags.nil = true
  allowed_first (TypeTags.cons inner rest) = allowed inner

-- The five structs have one type parameter at most, as their declarations in the framework have.
abbrev mutual
  pub IsUnary : TypeTag → Type 0
  IsUnary (TypeTag.vector inner) = IsUnary inner
  IsUnary (TypeTag.struct address module_name name type_args) =
      IsUnaryAt (is_framework_type address module_name name) type_args
  IsUnary _ = Unit

  pub IsUnaryAt : Bool → TypeTags → Type 0
  IsUnaryAt b TypeTags.nil = Unit
  IsUnaryAt b (TypeTags.cons inner TypeTags.nil) = IsUnary inner
  IsUnaryAt b (TypeTags.cons inner (TypeTags.cons _ _)) = b ≡ false

or_false :
    (x p q r s t : Bool)
    → ((x && p) || ((x && q) || ((x && r) || ((x && s) || ((x && t) || false)))))
      ≡ (x && (p || (q || (r || (s || t)))))
or_false true p q r s true = refl
or_false true p q r s false = refl
or_false false p q r s t = refl

is_allowed_struct-eq :
    (a : AccountAddress) (m n : String) → is_allowed_struct a m n ≡ is_framework_type a m n
is_allowed_struct-eq a m n = or_false (1 == a) _ _ _ _ _

verdict : TypeTag → Bool → Outcome (Unit {0})
verdict tag b = if b then ok tt else err (invalid_transaction (disallowed_entry_function_type tag))

struct_step :
    (tag : TypeTag) (rest : Outcome (Unit {0})) (b g : Bool)
    → (b ≡ true → rest ≡ verdict tag g)
    → (if not b then err (invalid_transaction (disallowed_entry_function_type tag)) else rest)
      ≡ verdict tag (b && g)
unfolding verdict
struct_step tag rest true g h = h refl
struct_step tag rest false g h = refl

mutual
  unfolding type_tag_loop allowed verdict

  loop_lem :
      (tag current : TypeTag)
      → IsUnary current
      → type_tag_loop tag current ≡ verdict tag (allowed current)
  loop_lem tag (TypeTag.vector inner) u = loop_lem tag inner u
  loop_lem tag (TypeTag.struct a m n args) u = rw (is_allowed_struct-eq a m n) (
      struct_step tag (type_args_loop tag n args) (is_framework_type a m n)
        (not (same_text n "Option") || allowed_first args)
        (λ e. args_lem tag n args (subst (λ b. IsUnaryAt b args) e u)))
  loop_lem tag _ u = refl

  args_lem :
      (tag : TypeTag) (n : String) (args : TypeTags)
      → IsUnaryAt true args
      → type_args_loop tag n args ≡ verdict tag (not (same_text n "Option") || allowed_first args)
  args_lem tag n TypeTags.nil u = elim (Bool-cases (same_text n "Option")) [
    | inl e ↦ rw e
    | inr e ↦ rw e
  ]
  args_lem tag n (TypeTags.cons inner TypeTags.nil) u = elim (Bool-cases (same_text n "Option")) [
    | inl e ↦ rw e (loop_lem tag inner u)
    | inr e ↦ rw e
  ]
  args_lem tag n (TypeTags.cons inner (TypeTags.cons _ _)) u = cc

-- A type passes exactly if it is a primitive type, a vector of a type that passes, or one of the
-- five structs of the framework, where an option passes with its type; any other is refused with an
-- error that names the whole type. The type parameter of an object does not matter.
pub validate_entry_type_tag-eq-allowed :
    (tag : TypeTag)
    → IsUnary tag
    → validate_entry_type_tag tag ≡ (
        if allowed tag
        then ok tt
        else err (invalid_transaction (disallowed_entry_function_type tag)))
unfolding validate_entry_type_tag verdict
validate_entry_type_tag-eq-allowed tag u = loop_lem tag tag u
