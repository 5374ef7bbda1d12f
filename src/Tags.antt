-- ===== src/Tags.antt =====
-- execution/src/tag_validation.rs and execution/src/layout.rs: which types and values may be
-- arguments of an entry function.
pub mod Types
pub mod Values
pub mod Rounds
pub mod Layouts
use Prim.Native.String.{String}
use op_move.Base.Texts.{same_text}
use op_move.Base.{
  ℕ, zero, suc, ◌+◌, Bool, true, false, ◌&&◌, ◌||◌, not, List, [], ◌∷◌, ◌++◌, Option, none, some,
  AccountAddress, Bytes, ◌==◌, if◌then◌else◌,
}
use op_move.MoveTypes.{TypeTag, TypeTags, MoveValue, MoveValues}
use op_move.Error.{
  Error, invalid_transaction, disallowed_entry_function_type, invalid_signer, invalid_string,
  invalid_option, invalid_object, entry_fn_invariant_violation, only_allowed_structs,
  string_struct_has_field, string_struct_field_is_vector, string_elements_are_u8,
  option_has_inner_type, option_struct_has_field, option_struct_field_is_vector,
  object_struct_has_type_parameter, object_struct_has_field, object_struct_field_is_address,
  object_core_type_exists, object_inner_type_exists,
}
use op_move.Execution.Vm.{Outcome, ok, err, panicked, and}

-- `MoveStructInfo`.
pub record MoveStructInfo : Type 0 where
  pub address : AccountAddress
  pub module_name : String
  pub name : String

abbrev pub same_info : MoveStructInfo → MoveStructInfo → Bool
same_info a b =
    (a.address == b.address) && (same_text a.module_name b.module_name && same_text a.name b.name)

abbrev framework_struct : String → String → MoveStructInfo
framework_struct module_name name = record { address = 1; module_name = module_name; name = name }

abbrev pub allowed_structs : List MoveStructInfo
allowed_structs =
    framework_struct "string" "String"
    ∷ framework_struct "object" "Object"
    ∷ framework_struct "option" "Option"
    ∷ framework_struct "fixed_point32" "FixedPoint32"
    ∷ framework_struct "fixed_point64" "FixedPoint64"
    ∷ []

abbrev contains_info : List MoveStructInfo → MoveStructInfo → Bool
contains_info [] info = false
contains_info (a ∷ infos) info = same_info a info || contains_info infos info

abbrev pub is_allowed_struct : AccountAddress → String → String → Bool
is_allowed_struct address module_name name =
    contains_info allowed_structs
      (record { address = address; module_name = module_name; name = name })

-- The loop over the current tag; `tag` is the one that an error names.
unfoldable mutual
  pub type_tag_loop : TypeTag → TypeTag → Outcome (Unit {0})
  type_tag_loop tag (TypeTag.vector inner) = type_tag_loop tag inner
  type_tag_loop tag (TypeTag.struct address module_name name type_args) =
      let rest = type_args_loop tag name type_args in
      if not (is_allowed_struct address module_name name)
      then err (invalid_transaction (disallowed_entry_function_type tag))
      else rest
  type_tag_loop tag _ = ok tt

  pub type_args_loop : TypeTag → String → TypeTags → Outcome (Unit {0})
  type_args_loop tag name TypeTags.nil = ok tt
  type_args_loop tag name (TypeTags.cons inner_type TypeTags.nil) =
      let rest = type_tag_loop tag inner_type in if same_text name "Option" then rest else ok tt
  type_args_loop tag name (TypeTags.cons _ (TypeTags.cons _ _)) = panicked

unfoldable pub validate_entry_type_tag : TypeTag → Outcome (Unit {0})
unfolding type_tag_loop
validate_entry_type_tag tag = type_tag_loop tag tag

-- What the validation of values asks of the session and of the standard library.
pub record TagEnv : Type 1 where
  pub is_utf8 : Bytes → Bool
  -- `load_type`, with the type by a number.
  pub load_type : TypeTag → Option ℕ
  pub GlobalValue : Type 0
  -- `load_resource`, with the value that stands there or is known to be absent.
  pub load_resource : AccountAddress → ℕ → Option GlobalValue
  pub exists : GlobalValue → Option Bool

-- The bytes of a vector of `u8`.
abbrev pub u8_entries : MoveValues → Option Bytes
u8_entries MoveValues.nil = some []
u8_entries (MoveValues.cons (MoveValue.u8 b) vs) = elim (u8_entries vs) [
  | none ↦ none
  | some bs ↦ some (b ∷ bs)
]
u8_entries (MoveValues.cons _ vs) = none

abbrev unwrap_or_false : Option Bool → Bool
unwrap_or_false none = false
unwrap_or_false (some b) = b

abbrev object_core_tag : TypeTag
object_core_tag = TypeTag.struct 1 "object" "ObjectCore" TypeTags.nil

module _ (env : TagEnv) where
  pub validate_string : MoveValues → Outcome (Unit {0})
  validate_string MoveValues.nil = err (entry_fn_invariant_violation string_struct_has_field)
  validate_string (MoveValues.cons (MoveValue.vector array) rest) = elim (u8_entries array) [
    | none ↦ err (entry_fn_invariant_violation string_elements_are_u8)
    | some bytes ↦ if env.is_utf8 bytes then ok tt else err (invalid_transaction invalid_string)
  ]
  validate_string (MoveValues.cons _ rest) =
      err (entry_fn_invariant_violation string_struct_field_is_vector)

  get_object_core_type : Outcome ℕ
  get_object_core_type = elim (env.load_type object_core_tag) [
    | none ↦ err (entry_fn_invariant_violation object_core_type_exists)
    | some t ↦ ok t
  ]

  resource_exists : AccountAddress → ℕ → Bool
  resource_exists addr ty = elim (env.load_resource addr ty) [
    | none ↦ false
    | some value ↦ unwrap_or_false (env.exists value)
  ]

  -- An object of the inner type stands at the address.
  object_at : AccountAddress → TypeTag → ℕ → Outcome (Unit {0})
  unfolding resource_exists
  object_at addr inner_type object_core =
      if not (resource_exists addr object_core)
      then err (invalid_transaction invalid_object)
      else (elim (env.load_type inner_type) [
        | none ↦ err (entry_fn_invariant_violation object_inner_type_exists)
        | some t ↦
            if resource_exists addr t then ok tt else err (invalid_transaction invalid_object)
      ])

  validate_object : MoveValues → TypeTag → Outcome (Unit {0})
  unfolding get_object_core_type object_at
  validate_object MoveValues.nil inner_type =
      err (entry_fn_invariant_violation object_struct_has_field)
  validate_object (MoveValues.cons (MoveValue.address addr) rest) inner_type =
      and get_object_core_type (object_at addr inner_type)
  validate_object (MoveValues.cons _ rest) inner_type =
      err (entry_fn_invariant_violation object_struct_field_is_address)

  pub validate_object_of : TypeTags → MoveValues → Outcome (Unit {0})
  unfolding validate_object
  validate_object_of TypeTags.nil fields =
      err (entry_fn_invariant_violation object_struct_has_type_parameter)
  validate_object_of (TypeTags.cons inner_type _) fields = validate_object fields inner_type

-- The value that an option holds.
abbrev pub validate_option : MoveValues → Outcome (Option MoveValue)
validate_option MoveValues.nil = err (entry_fn_invariant_violation option_struct_has_field)
validate_option (MoveValues.cons (MoveValue.vector MoveValues.nil) rest) = ok none
validate_option (MoveValues.cons (MoveValue.vector (MoveValues.cons inner MoveValues.nil)) rest) =
    ok (some inner)
validate_option
      (MoveValues.cons (MoveValue.vector (MoveValues.cons _ (MoveValues.cons _ _))) rest) =
    err (invalid_transaction invalid_option)
validate_option (MoveValues.cons _ rest) =
    err (entry_fn_invariant_violation option_struct_field_is_vector)

abbrev pub Stack : Type 0
Stack = List (TypeTag × MoveValue)

abbrev pub push_all : TypeTag → MoveValues → Stack → Stack
push_all tag MoveValues.nil stack = stack
push_all tag (MoveValues.cons elem array) stack = push_all tag array ((tag, elem) ∷ stack)

abbrev pub push_option : TypeTags → Stack → Option MoveValue → Outcome Stack
push_option type_args stack none = ok stack
push_option (TypeTags.cons inner_tag _) stack (some inner_value) =
    ok ((inner_tag, inner_value) ∷ stack)
push_option TypeTags.nil stack (some inner_value) =
    err (entry_fn_invariant_violation option_has_inner_type)

-- The number of values in a value, which bounds the rounds of the loop.
unfoldable mutual
  pub size : MoveValue → ℕ
  size (MoveValue.vector values) = suc (size_all values)
  size (MoveValue.struct fields) = suc (size_all fields)
  size _ = 1

  pub size_all : MoveValues → ℕ
  size_all MoveValues.nil = 0
  size_all (MoveValues.cons value values) = size value + size_all values

module _ (env : TagEnv) (expected_signer : AccountAddress) where
  pub visit_struct : String → TypeTags → MoveValues → Stack → Outcome Stack
  unfolding validate_string validate_object_of
  visit_struct name type_args fields stack =
      if same_text name "String"
      then and (validate_string env fields) (λ _. ok stack)
      else if same_text name "Object"
      then and (validate_object_of env type_args fields) (λ _. ok stack)
      else if same_text name "Option"
      then and (validate_option fields) (push_option type_args stack)
      else if same_text name "FixedPoint32" || same_text name "FixedPoint64"
      then ok stack
      else err (entry_fn_invariant_violation only_allowed_structs)

  -- One round of the loop: what becomes of the rest of the stack.
  pub visit : TypeTag → MoveValue → Stack → Outcome Stack
  unfolding visit_struct
  visit TypeTag.signer (MoveValue.signer given_signer) stack =
      if given_signer == expected_signer then ok stack else err (invalid_transaction invalid_signer)
  visit (TypeTag.vector inner_tag) (MoveValue.vector array) stack =
      ok (push_all inner_tag array stack)
  visit (TypeTag.struct _ _ name type_args) (MoveValue.struct fields) stack =
      visit_struct name type_args fields stack
  visit _ _ stack = ok stack

  -- The loop, on fuel; a lack of fuel would show as a panic.
  pub value_loop : ℕ → Stack → Outcome (Unit {0})
  unfolding visit
  value_loop fuel [] = ok tt
  value_loop zero ((tag, value) ∷ stack) = panicked
  value_loop (suc fuel) ((tag, value) ∷ stack) = and (visit tag value stack) (value_loop fuel)

  unfoldable pub validate_entry_value : TypeTag → MoveValue → Outcome (Unit {0})
  unfolding value_loop size
  validate_entry_value tag value = value_loop (suc (size value)) ((tag, value) ∷ [])
