-- ===== src/EvmExt/Solidity/Encoding.antt =====
-- evm-ext/src/solidity_abi.rs: from the values of Move to those of Solidity.
use op_move.Base.{ℕ, zero, suc, [], ◌∷◌, Option, none, some, Bytes, if◌then◌else◌}
use op_move.Primitives.{to_eth_address}
use op_move.MoveTypes.{MoveValue, MoveValues}
use op_move.Tags.{u8_entries}
use op_move.EvmExt.Solidity.{
  TypedLayout, TypedLayouts, SolValue, SolValues, type_args_to_usize, is_marker,
}

-- The bytes of a list of values; any other value is a panic.
abbrev pub bytes_of : Option Bytes → Option SolValue
bytes_of none = none
bytes_of (some bytes) = some (SolValue.bytes bytes)

abbrev pub array_with : Option SolValues → Option SolValue
array_with none = none
array_with (some values) = some (SolValue.array values)

abbrev pub fixed_array_with : Option SolValues → Option SolValue
fixed_array_with none = none
fixed_array_with (some values) = some (SolValue.fixed_array values)

abbrev pub tuple_with : Option SolValues → Option SolValue
tuple_with none = none
tuple_with (some values) = some (SolValue.tuple values)

abbrev pub cons_value : Option SolValue → Option SolValues → Option SolValues
cons_value (some value) (some values) = some (SolValues.cons value values)
cons_value none values = none
cons_value (some value) none = none

-- The buffer of 32 bytes, filled from its beginning.
abbrev pub fill_buffer : ℕ → Bytes → Bytes
fill_buffer zero bytes = []
fill_buffer (suc n) [] = 0 ∷ fill_buffer n []
fill_buffer (suc n) (b ∷ bytes) = b ∷ fill_buffer n bytes

abbrev pub fixed_bytes_of : Option Bytes → ℕ → Option SolValue
fixed_bytes_of none size = none
fixed_bytes_of (some bytes) size = some (SolValue.fixed_bytes (fill_buffer 32 bytes) size)

-- The bytes in the last field of the marker struct of fixed bytes.
pub last_bytes : MoveValues → Option Bytes
last_bytes MoveValues.nil = none
last_bytes (MoveValues.cons (MoveValue.vector xs) MoveValues.nil) = u8_entries xs
last_bytes (MoveValues.cons value rest) = last_bytes rest

-- `move_value_to_sol_value`; no result is a panic.
unfoldable mutual
  unfolding type_args_to_usize last_bytes

  pub move_value_to_sol_value : MoveValue → TypedLayout → Option SolValue
  move_value_to_sol_value (MoveValue.signer a) layout = some (SolValue.address (to_eth_address a))
  move_value_to_sol_value (MoveValue.address a) layout = some (SolValue.address (to_eth_address a))
  move_value_to_sol_value (MoveValue.bool b) layout = some (SolValue.bool b)
  move_value_to_sol_value (MoveValue.u8 x) layout = some (SolValue.uint x 8)
  move_value_to_sol_value (MoveValue.u16 x) layout = some (SolValue.uint x 16)
  move_value_to_sol_value (MoveValue.u32 x) layout = some (SolValue.uint x 32)
  move_value_to_sol_value (MoveValue.u64 x) layout = some (SolValue.uint x 64)
  move_value_to_sol_value (MoveValue.u128 x) layout = some (SolValue.uint x 128)
  move_value_to_sol_value (MoveValue.u256 x) layout = some (SolValue.uint x 256)
  move_value_to_sol_value (MoveValue.vector (MoveValues.cons (MoveValue.u8 b) xs)) layout =
      bytes_of (u8_entries (MoveValues.cons (MoveValue.u8 b) xs))
  move_value_to_sol_value (MoveValue.vector xs) (TypedLayout.vector inner_layout) =
      array_with (values_to_sol_values xs inner_layout)
  move_value_to_sol_value (MoveValue.vector xs) layout = none
  move_value_to_sol_value (MoveValue.struct inner)
        (TypedLayout.struct account module_name name type_args fields) =
      let fixed = fixed_array_with (fixed_array_values inner fields) in
      let tuple = tuple_with (fields_to_sol_values inner fields) in
      if is_marker "SolidityFixedBytes" account module_name name
      then fixed_bytes_of (last_bytes inner) (type_args_to_usize type_args)
      else if is_marker "SolidityFixedArray" account module_name name
      then fixed
      else tuple
  move_value_to_sol_value (MoveValue.struct inner) layout = none

  pub values_to_sol_values : MoveValues → TypedLayout → Option SolValues
  values_to_sol_values MoveValues.nil layout = some SolValues.nil
  values_to_sol_values (MoveValues.cons x xs) layout =
      cons_value (move_value_to_sol_value x layout) (values_to_sol_values xs layout)

  -- The fields with their layouts, as far as both go.
  pub fields_to_sol_values : MoveValues → TypedLayouts → Option SolValues
  fields_to_sol_values (MoveValues.cons x xs) (TypedLayouts.cons layout layouts) =
      cons_value (move_value_to_sol_value x layout) (fields_to_sol_values xs layouts)
  fields_to_sol_values _ _ = some SolValues.nil

  -- The entries of the marker struct of fixed arrays, from its last field by the layout of its first.
  fixed_array_values : MoveValues → TypedLayouts → Option SolValues
  fixed_array_values (MoveValues.cons (MoveValue.vector xs) MoveValues.nil)
        (TypedLayouts.cons (TypedLayout.vector inner_layout) layouts) =
      values_to_sol_values xs inner_layout
  fixed_array_values (MoveValues.cons value (MoveValues.cons next rest)) layouts =
      fixed_array_values (MoveValues.cons next rest) layouts
  fixed_array_values _ layouts = none
