-- ===== src/EvmExt/Solidity.antt =====
-- evm-ext/src/solidity_abi.rs: between the values of Move and those of the Solidity ABI, by the
-- layouts of their types with the names of structs. The encoding of Solidity values is a library.
pub mod Encoding
pub mod Decoding
pub mod Signers
pub mod Fitting
pub mod Typed
pub mod RoundTrip
use Prim.Native.String.{String}
use op_move.Base.Texts.{same_text}
use op_move.Base.{
  ℕ, zero, suc, ◌+◌, ◌-◌, ◌%◌, ◌^◌, ◌*◌, Bool, true, false, ◌&&◌, List, [], ◌∷◌, Option, none, some,
  Address, AccountAddress, Bytes, length, ◌==◌, if◌then◌else◌,
}
use op_move.Primitives.{to_eth_address, to_move_address, be_value}
use op_move.MoveTypes.{TypeTag, TypeTags, MoveValue, MoveValues}
use op_move.EvmExt.Results.{vector_u8}
use op_move.Tags.{u8_entries}

-- The layouts of `type_to_fully_annotated_layout`: a struct with its tag and its fields.
mutual
  pub data TypedLayout : Type 0 where
    bool u8 u16 u32 u64 u128 u256 address signer : TypedLayout
    vector : TypedLayout → TypedLayout
    struct : AccountAddress → String → String → TypeTags → TypedLayouts → TypedLayout
    native : ℕ → TypedLayout → TypedLayout

  pub data TypedLayouts : Type 0 where
    nil : TypedLayouts
    cons : TypedLayout → TypedLayouts → TypedLayouts

-- `DynSolValue`, without the variants that the program never makes.
mutual
  pub data SolValue : Type 0 where
    bool : Bool → SolValue
    uint : ℕ → ℕ → SolValue
    fixed_bytes : Bytes → ℕ → SolValue
    address : Address → SolValue
    bytes text : Bytes → SolValue
    array fixed_array tuple : SolValues → SolValue

  pub data SolValues : Type 0 where
    nil : SolValues
    cons : SolValue → SolValues → SolValues

-- `DynSolType`.
mutual
  pub data SolType : Type 0 where
    bool address bytes text : SolType
    uint fixed_bytes : ℕ → SolType
    array : SolType → SolType
    tuple : SolTypes → SolType

  pub data SolTypes : Type 0 where
    nil : SolTypes
    cons : SolType → SolTypes → SolTypes

-- The bit that a marker type clears, of the five from 16 down to 1.
abbrev is_b0 : TypeTag → Bool
is_b0 (TypeTag.struct account module_name name type_args) = same_text name "B0"
is_b0 _ = false

abbrev pub bits : ℕ → TypeTags → ℕ
bits zero params = 0
bits (suc i) TypeTags.nil = 2 ^ suc i - 1
bits (suc i) (TypeTags.cons param params) = (if is_b0 param then 0 else 2 ^ i) + bits i params

-- `type_args_to_usize`, the size of fixed bytes in the parameters of its first parameter.
unfoldable pub type_args_to_usize : TypeTags → ℕ
type_args_to_usize (TypeTags.cons (TypeTag.struct account module_name name params) rest) =
    bits 5 params + 1
type_args_to_usize _ = 32

abbrev pub is_marker : String → AccountAddress → String → String → Bool
is_marker marker account module_name name =
    (account == 1) && (same_text module_name "evm" && same_text name marker)

abbrev pub is_string : AccountAddress → String → String → TypeTags → Bool
is_string account module_name name TypeTags.nil =
    (account == 1) && (same_text module_name "string" && same_text name "String")
is_string account module_name name (TypeTags.cons _ _) = false

abbrev pub array_of : Option SolType → Option SolType
array_of none = none
array_of (some inner) = some (SolType.array inner)

abbrev pub tuple_of : Option SolTypes → Option SolType
tuple_of none = none
tuple_of (some types) = some (SolType.tuple types)

abbrev pub cons_type : Option SolType → Option SolTypes → Option SolTypes
cons_type (some type) (some types) = some (SolTypes.cons type types)
cons_type none types = none
cons_type (some type) none = none

-- `layout_to_sol_type`; no result is its error.
unfoldable mutual
  unfolding type_args_to_usize

  pub layout_to_sol_type : TypedLayout → Option SolType
  layout_to_sol_type TypedLayout.bool = some SolType.bool
  layout_to_sol_type TypedLayout.u8 = some (SolType.uint 8)
  layout_to_sol_type TypedLayout.u16 = some (SolType.uint 16)
  layout_to_sol_type TypedLayout.u32 = some (SolType.uint 32)
  layout_to_sol_type TypedLayout.u64 = some (SolType.uint 64)
  layout_to_sol_type TypedLayout.u128 = some (SolType.uint 128)
  layout_to_sol_type TypedLayout.u256 = some (SolType.uint 256)
  layout_to_sol_type TypedLayout.signer = some SolType.address
  layout_to_sol_type TypedLayout.address = some SolType.address
  layout_to_sol_type (TypedLayout.vector TypedLayout.u8) = some SolType.bytes
  layout_to_sol_type (TypedLayout.vector inner) = array_of (layout_to_sol_type inner)
  layout_to_sol_type (TypedLayout.struct account module_name name type_args fields) =
      let tuple = tuple_of (layouts_to_sol_types fields) in
      if is_marker "SolidityFixedBytes" account module_name name
      then some (SolType.fixed_bytes (type_args_to_usize type_args))
      else if is_marker "SolidityFixedArray" account module_name name
      then none
      else if is_string account module_name name type_args
      then some SolType.text
      else tuple
  layout_to_sol_type (TypedLayout.native _ inner) = layout_to_sol_type inner

  pub layouts_to_sol_types : TypedLayouts → Option SolTypes
  layouts_to_sol_types TypedLayouts.nil = some SolTypes.nil
  layouts_to_sol_types (TypedLayouts.cons layout layouts) =
      cons_type (layout_to_sol_type layout) (layouts_to_sol_types layouts)
