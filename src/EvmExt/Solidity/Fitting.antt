-- ===== src/EvmExt/Solidity/Fitting.antt =====
-- Which Move values evm-ext/src/solidity_abi.rs can take to Solidity and back.
use op_move.Base.{◌<◌, ◌^◌, ◌≡◌, refl, ap, Bool, true, false, some, Bytes, [], ◌∷◌}
use op_move.MoveTypes.{MoveValue, MoveValues}
use op_move.Tags.{u8_entries}
use op_move.EvmExt.Results.{vector_u8}
use op_move.EvmExt.Solidity.{TypedLayout, TypedLayouts, is_marker, is_string}
use op_move.EvmExt.Solidity.Encoding.{array_with, move_value_to_sol_value, values_to_sol_values}

abbrev pub is_u8 : TypedLayout → Bool
is_u8 TypedLayout.u8 = true
is_u8 _ = false

abbrev pub AreU8 : MoveValues → Type 0
AreU8 MoveValues.nil = Unit
AreU8 (MoveValues.cons (MoveValue.u8 x) xs) = AreU8 xs
AreU8 (MoveValues.cons _ xs) = ⊥

-- The value is of the layout, its integers and addresses are in range, and its structs are no markers
-- of fixed bytes or arrays and no strings. There is no signer in it.
abbrev mutual
  pub Fits : MoveValue → TypedLayout → Type 0
  Fits (MoveValue.bool b) TypedLayout.bool = Unit
  Fits (MoveValue.u8 x) TypedLayout.u8 = x < 2 ^ 8
  Fits (MoveValue.u16 x) TypedLayout.u16 = x < 2 ^ 16
  Fits (MoveValue.u32 x) TypedLayout.u32 = x < 2 ^ 32
  Fits (MoveValue.u64 x) TypedLayout.u64 = x < 2 ^ 64
  Fits (MoveValue.u128 x) TypedLayout.u128 = x < 2 ^ 128
  Fits (MoveValue.u256 x) TypedLayout.u256 = x < 2 ^ 256
  Fits (MoveValue.address a) TypedLayout.address = a < 2 ^ 160
  Fits (MoveValue.vector xs) (TypedLayout.vector TypedLayout.u8) = AreU8 xs
  Fits (MoveValue.vector xs) (TypedLayout.vector inner) = AllFit xs inner
  Fits (MoveValue.struct xs) (TypedLayout.struct account module_name name type_args layouts) =
      (is_marker "SolidityFixedBytes" account module_name name ≡ false)
      × (is_marker "SolidityFixedArray" account module_name name ≡ false)
      × (is_string account module_name name type_args ≡ false)
      × FieldsFit xs layouts
  Fits _ _ = ⊥

  pub AllFit : MoveValues → TypedLayout → Type 0
  AllFit MoveValues.nil layout = Unit
  AllFit (MoveValues.cons x xs) layout = Fits x layout × AllFit xs layout

  pub FieldsFit : MoveValues → TypedLayouts → Type 0
  FieldsFit MoveValues.nil TypedLayouts.nil = Unit
  FieldsFit (MoveValues.cons x xs) (TypedLayouts.cons layout layouts) =
      Fits x layout × FieldsFit xs layouts
  FieldsFit _ _ = ⊥

pub u8_entries-back :
    (xs : MoveValues)
    → AreU8 xs
    → (bytes : Bytes) × (u8_entries xs ≡ some bytes) × (vector_u8 bytes ≡ xs)
u8_entries-back MoveValues.nil h = ([], refl, refl)
u8_entries-back (MoveValues.cons (MoveValue.u8 x) xs) h =
    let (bytes, read, back) = u8_entries-back xs h in
    (x ∷ bytes, rw read, ap (MoveValues.cons (MoveValue.u8 x)) back)
u8_entries-back (MoveValues.cons _ xs) h = absurd h

pub array_case :
    (xs : MoveValues) (inner : TypedLayout)
    → is_u8 inner ≡ false
    → AllFit xs inner
    → move_value_to_sol_value (MoveValue.vector xs) (TypedLayout.vector inner)
      ≡ array_with (values_to_sol_values xs inner)
unfolding move_value_to_sol_value
array_case MoveValues.nil inner e h = refl
array_case (MoveValues.cons (MoveValue.u8 x) xs) TypedLayout.u8 e h = cc
array_case (MoveValues.cons (MoveValue.u8 x) xs) _ e h = absurd h.0
array_case (MoveValues.cons _ xs) inner e h = refl
