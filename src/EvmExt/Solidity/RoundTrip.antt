-- ===== src/EvmExt/Solidity/RoundTrip.antt =====
-- Values that go through the Solidity ABI come back as they were.
use op_move.Base.{◌%◌, ◌^◌, ◌≡◌, refl, ◌∙◌, ap, false, Option, some}
use native.Mathlib.Nat.{mod-eq_of_lt}
use op_move.MoveTypes.{MoveValue, MoveValues}
use op_move.EvmExt.Solidity.{
  TypedLayout, TypedLayouts, SolValue, SolValues, SolType, layout_to_sol_type,
}
use op_move.EvmExt.Solidity.Encoding.{
  bytes_of, array_with, tuple_with, move_value_to_sol_value, values_to_sol_values,
  fields_to_sol_values,
}
use op_move.EvmExt.Solidity.Fitting.{
  Fits, AllFit, FieldsFit, AreU8, is_u8, u8_entries-back, array_case,
}
use op_move.EvmExt.Solidity.Typed.{HasType, move_value_to_sol_value-HasType}
use op_move.EvmExt.Solidity.Decoding.{
  vector_with, struct_with, sol_to_value, sol_to_values, sol_to_fields,
}

-- The Solidity value of a value, which decodes to it.
abbrev Returns : MoveValue → TypedLayout → Option SolValue → Type 0
Returns value layout o = (sv : SolValue) × (o ≡ some sv) × (sol_to_value sv layout ≡ some value)

abbrev AllReturn : MoveValues → TypedLayout → Option SolValues → Type 0
AllReturn values layout o =
    (svs : SolValues) × (o ≡ some svs) × (sol_to_values svs layout ≡ some values)

abbrev FieldsReturn : MoveValues → TypedLayouts → Option SolValues → Type 0
FieldsReturn values layouts o =
    (svs : SolValues) × (o ≡ some svs) × (sol_to_fields svs layouts ≡ some values)

bytes-Returns :
    (xs : MoveValues)
    → AreU8 xs
    → Returns
        (MoveValue.vector xs)
        (TypedLayout.vector TypedLayout.u8)
        (move_value_to_sol_value (MoveValue.vector xs) (TypedLayout.vector TypedLayout.u8))
unfolding move_value_to_sol_value sol_to_value
bytes-Returns MoveValues.nil h = (SolValue.array SolValues.nil, refl, refl)
bytes-Returns (MoveValues.cons (MoveValue.u8 x) xs) h =
    let (bytes, read, back) = u8_entries-back (MoveValues.cons (MoveValue.u8 x) xs) h in
    (SolValue.bytes bytes, ap bytes_of read, ap (λ vs. some (MoveValue.vector vs)) back)
bytes-Returns (MoveValues.cons _ xs) h = absurd h

array-Returns :
    (xs : MoveValues) (inner : TypedLayout)
    → is_u8 inner ≡ false
    → AllFit xs inner
    → AllReturn xs inner (values_to_sol_values xs inner)
    → Returns
        (MoveValue.vector xs)
        (TypedLayout.vector inner)
        (move_value_to_sol_value (MoveValue.vector xs) (TypedLayout.vector inner))
unfolding sol_to_value
array-Returns xs inner other fits (svs, made, back) =
    (SolValue.array svs, array_case xs inner other fits ∙ ap array_with made, ap vector_with back)

mutual
  unfolding move_value_to_sol_value sol_to_value

  value-Returns :
      (mv : MoveValue) (layout : TypedLayout)
      → Fits mv layout
      → Returns mv layout (move_value_to_sol_value mv layout)
  value-Returns (MoveValue.bool b) TypedLayout.bool h = (SolValue.bool b, refl, refl)
  value-Returns (MoveValue.u8 x) TypedLayout.u8 h =
      (SolValue.uint x 8, refl, ap (λ n. some (MoveValue.u8 n)) (mod-eq_of_lt h))
  value-Returns (MoveValue.u16 x) TypedLayout.u16 h =
      (SolValue.uint x 16, refl, ap (λ n. some (MoveValue.u16 n)) (mod-eq_of_lt h))
  value-Returns (MoveValue.u32 x) TypedLayout.u32 h =
      (SolValue.uint x 32, refl, ap (λ n. some (MoveValue.u32 n)) (mod-eq_of_lt h))
  value-Returns (MoveValue.u64 x) TypedLayout.u64 h =
      (SolValue.uint x 64, refl, ap (λ n. some (MoveValue.u64 n)) (mod-eq_of_lt h))
  value-Returns (MoveValue.u128 x) TypedLayout.u128 h =
      (SolValue.uint x 128, refl, ap (λ n. some (MoveValue.u128 n)) (mod-eq_of_lt h))
  value-Returns (MoveValue.u256 x) TypedLayout.u256 h = (SolValue.uint x 256, refl, refl)
  value-Returns (MoveValue.address a) TypedLayout.address h =
      (SolValue.address (a % 2 ^ 160), refl, ap (λ n. some (MoveValue.address n)) (mod-eq_of_lt h))
  value-Returns (MoveValue.vector xs) (TypedLayout.vector TypedLayout.u8) h = bytes-Returns xs h
  value-Returns (MoveValue.vector xs) (TypedLayout.vector inner) h =
      array-Returns xs inner refl h (values-AllReturn xs inner h)
  value-Returns (MoveValue.struct xs)
        (TypedLayout.struct account module_name name type_args layouts) h =
      let (no_bytes, no_array, no_string, fields) = h in
      let (svs, made, back) = fields-FieldsReturn xs layouts fields in
      (SolValue.tuple svs, rw (no_bytes, no_array) (ap tuple_with made), ap struct_with back)
  value-Returns _ _ h = absurd h

  values-AllReturn :
      (xs : MoveValues) (layout : TypedLayout)
      → AllFit xs layout
      → AllReturn xs layout (values_to_sol_values xs layout)
  values-AllReturn MoveValues.nil layout h = (SolValues.nil, refl, refl)
  values-AllReturn (MoveValues.cons x xs) layout h =
      let (sv, made, back) = value-Returns x layout h.0 in
      let (svs, all_made, all_back) = values-AllReturn xs layout h.1 in
      (SolValues.cons sv svs, rw (made, all_made), rw (back, all_back))

  fields-FieldsReturn :
      (xs : MoveValues) (layouts : TypedLayouts)
      → FieldsFit xs layouts
      → FieldsReturn xs layouts (fields_to_sol_values xs layouts)
  fields-FieldsReturn MoveValues.nil TypedLayouts.nil h = (SolValues.nil, refl, refl)
  fields-FieldsReturn (MoveValues.cons x xs) (TypedLayouts.cons layout layouts) h =
      let (sv, made, back) = value-Returns x layout h.0 in
      let (svs, all_made, all_back) = fields-FieldsReturn xs layouts h.1 in
      (SolValues.cons sv svs, rw (made, all_made), rw (back, all_back))
  fields-FieldsReturn _ _ h = absurd h

-- A value of a layout that has a Solidity type, without signers, markers and strings, whose integers
-- and addresses are in range, is encoded as a Solidity value of that type, and decoding that at the
-- same layout gives the value back.
pub sol_to_value-move_value_to_sol_value :
    (mv : MoveValue) (layout : TypedLayout) (type : SolType)
    → Fits mv layout
    → layout_to_sol_type layout ≡ some type
    → (sv : SolValue) × (move_value_to_sol_value mv layout ≡ some sv)
      × HasType sv type
      × (sol_to_value sv layout ≡ some mv)
sol_to_value-move_value_to_sol_value mv layout type fits typed =
    let (sv, made, back) = value-Returns mv layout fits in
    (sv, made, move_value_to_sol_value-HasType mv layout type sv fits typed made, back)
