-- ===== src/MoveTypes.antt =====
-- The types of the Move language that the program inspects: type tags, values and type layouts of
-- move-core-types, and the errors of the VM by their status.
use Prim.Native.String.{String}
use op_move.Base.{ℕ, AccountAddress, List, [], ◌∷◌, Bool}

-- The status codes that the program tells apart.
pub data StatusCode : Type 0 where
  out_of_gas : StatusCode
  status : ℕ → StatusCode

pub record VmError : Type 0 where
  pub major_status : StatusCode

-- `Struct` tags hold a list of tags, so the two types stand in one block.
mutual
  pub data TypeTag : Type 0 where
    bool u8 u16 u32 u64 u128 u256 address signer : TypeTag
    vector : TypeTag → TypeTag
    struct : AccountAddress → String → String → TypeTags → TypeTag

  pub data TypeTags : Type 0 where
    nil : TypeTags
    cons : TypeTag → TypeTags → TypeTags

-- The fields of a struct value or of an enum variant, and the entries of a vector, are values.
mutual
  pub data MoveValue : Type 0 where
    bool : Bool → MoveValue
    u8 u16 u32 u64 u128 u256 : ℕ → MoveValue
    address signer : AccountAddress → MoveValue
    vector : MoveValues → MoveValue
    struct : MoveValues → MoveValue

  pub data MoveValues : Type 0 where
    nil : MoveValues
    cons : MoveValue → MoveValues → MoveValues

abbrev pub to_list : MoveValues → List MoveValue
to_list MoveValues.nil = []
to_list (MoveValues.cons v vs) = v ∷ to_list vs

-- The layout of a type; the native layouts are aggregators and snapshots over an inner layout.
mutual
  pub data MoveTypeLayout : Type 0 where
    bool u8 u16 u32 u64 u128 u256 address signer : MoveTypeLayout
    vector : MoveTypeLayout → MoveTypeLayout
    struct : MoveTypeLayouts → MoveTypeLayout
    native : ℕ → MoveTypeLayout → MoveTypeLayout

  pub data MoveTypeLayouts : Type 0 where
    nil : MoveTypeLayouts
    cons : MoveTypeLayout → MoveTypeLayouts → MoveTypeLayouts
