-- ===== src/EvmExt/Solidity/Decoding.antt =====
-- evm-ext/src/solidity_abi.rs: from the values of Solidity back to those of Move.
use op_move.Base.{ℕ, ◌%◌, ◌^◌, Option, none, some, Bytes, ◌==◌, if◌then◌else◌}
use op_move.Primitives.{to_move_address}
use op_move.MoveTypes.{MoveValue, MoveValues}
use op_move.EvmExt.Results.{vector_u8}
use op_move.EvmExt.Solidity.{TypedLayout, TypedLayouts, SolValue, SolValues}

abbrev pub vector_with : Option MoveValues → Option MoveValue
vector_with none = none
vector_with (some values) = some (MoveValue.vector values)

abbrev pub struct_with : Option MoveValues → Option MoveValue
struct_with none = none
struct_with (some values) = some (MoveValue.struct values)

abbrev pub cons_move : Option MoveValue → Option MoveValues → Option MoveValues
cons_move (some value) (some values) = some (MoveValues.cons value values)
cons_move none values = none
cons_move (some value) none = none

abbrev pub bytes_struct : Bytes → MoveValue
bytes_struct bytes =
    MoveValue.struct (MoveValues.cons (MoveValue.vector (vector_u8 bytes)) MoveValues.nil)

-- The integers by their size.
abbrev pub uint_to_value : ℕ → ℕ → TypedLayout → Option MoveValue
uint_to_value u size TypedLayout.u8 = if size == 8 then some (MoveValue.u8 (u % 2 ^ 8)) else none
uint_to_value u size TypedLayout.u16 =
    if size == 16 then some (MoveValue.u16 (u % 2 ^ 16)) else none
uint_to_value u size TypedLayout.u32 =
    if size == 32 then some (MoveValue.u32 (u % 2 ^ 32)) else none
uint_to_value u size TypedLayout.u64 =
    if size == 64 then some (MoveValue.u64 (u % 2 ^ 64)) else none
uint_to_value u size TypedLayout.u128 =
    if size == 128 then some (MoveValue.u128 (u % 2 ^ 128)) else none
uint_to_value u size TypedLayout.u256 = if size == 256 then some (MoveValue.u256 u) else none
uint_to_value u size layout = none

-- `sol_to_value`; no result is its error.
unfoldable mutual
  pub sol_to_value : SolValue → TypedLayout → Option MoveValue
  sol_to_value (SolValue.bool b) TypedLayout.bool = some (MoveValue.bool b)
  sol_to_value (SolValue.uint u size) layout = uint_to_value u size layout
  sol_to_value (SolValue.fixed_bytes w size) (TypedLayout.struct _ _ _ _ _) = some (bytes_struct w)
  sol_to_value (SolValue.address a) TypedLayout.address =
      some (MoveValue.address (to_move_address a))
  sol_to_value (SolValue.address a) TypedLayout.signer = none
  sol_to_value (SolValue.bytes b) (TypedLayout.vector TypedLayout.u8) =
      some (MoveValue.vector (vector_u8 b))
  sol_to_value (SolValue.text s) (TypedLayout.struct _ _ _ _ _) = some (bytes_struct s)
  sol_to_value (SolValue.array a) (TypedLayout.vector inner_layout) =
      vector_with (sol_to_values a inner_layout)
  sol_to_value (SolValue.tuple t) (TypedLayout.struct _ _ _ _ fields) =
      struct_with (sol_to_fields t fields)
  sol_to_value _ _ = none

  pub sol_to_values : SolValues → TypedLayout → Option MoveValues
  sol_to_values SolValues.nil layout = some MoveValues.nil
  sol_to_values (SolValues.cons sv svs) layout =
      cons_move (sol_to_value sv layout) (sol_to_values svs layout)

  pub sol_to_fields : SolValues → TypedLayouts → Option MoveValues
  sol_to_fields (SolValues.cons sv svs) (TypedLayouts.cons layout layouts) =
      cons_move (sol_to_value sv layout) (sol_to_fields svs layouts)
  sol_to_fields _ _ = some MoveValues.nil
