-- ===== src/EvmExt/Solidity/Typed.antt =====
-- The types of the Solidity values that evm-ext/src/solidity_abi.rs makes from Move values.
use mathlib.Core.Path.{subst}
use op_move.Base.{sym, arith, ◌<◌, ◌^◌, ◌≡◌, refl, false, Option, none, some}
use op_move.MoveTypes.{MoveValue, MoveValues}
use op_move.EvmExt.Solidity.{
  TypedLayout, TypedLayouts, SolValue, SolValues, SolType, SolTypes, layout_to_sol_type,
  layouts_to_sol_types, array_of, tuple_of, cons_type,
}
use op_move.EvmExt.Solidity.Encoding.{
  bytes_of, array_with, tuple_with, cons_value, move_value_to_sol_value, values_to_sol_values,
  fields_to_sol_values,
}
use op_move.EvmExt.Solidity.Fitting.{
  is_u8, AreU8, Fits, AllFit, FieldsFit, u8_entries-back, array_case,
}

-- A Solidity value of a Solidity type. The encoding of an empty array is that of empty bytes.
abbrev mutual
  pub HasType : SolValue → SolType → Type 0
  HasType (SolValue.bool b) SolType.bool = Unit
  HasType (SolValue.uint u size) (SolType.uint size') = (size ≡ size') × (u < 2 ^ size)
  HasType (SolValue.address a) SolType.address = a < 2 ^ 160
  HasType (SolValue.bytes b) SolType.bytes = Unit
  HasType (SolValue.array SolValues.nil) SolType.bytes = Unit
  HasType (SolValue.text s) SolType.text = Unit
  HasType (SolValue.fixed_bytes w size) (SolType.fixed_bytes size') = size ≡ size'
  HasType (SolValue.array svs) (SolType.array inner) = AllHaveType svs inner
  HasType (SolValue.tuple svs) (SolType.tuple types) = HaveTypes svs types
  HasType _ _ = ⊥

  pub AllHaveType : SolValues → SolType → Type 0
  AllHaveType SolValues.nil inner = Unit
  AllHaveType (SolValues.cons sv svs) inner = HasType sv inner × AllHaveType svs inner

  pub HaveTypes : SolValues → SolTypes → Type 0
  HaveTypes SolValues.nil SolTypes.nil = Unit
  HaveTypes (SolValues.cons sv svs) (SolTypes.cons type types) =
      HasType sv type × HaveTypes svs types
  HaveTypes _ _ = ⊥

-- There is a value, of the type if there is one.
abbrev OfType : Option SolValue → Option SolType → Type 0
OfType none o = ⊥
OfType (some sv) none = Unit
OfType (some sv) (some type) = HasType sv type

abbrev AllOfType : Option SolValues → Option SolType → Type 0
AllOfType none o = ⊥
AllOfType (some svs) none = Unit
AllOfType (some svs) (some type) = AllHaveType svs type

abbrev OfTypes : Option SolValues → Option SolTypes → Type 0
OfTypes none o = ⊥
OfTypes (some svs) none = Unit
OfTypes (some svs) (some types) = HaveTypes svs types

array-OfType :
    (o : Option SolValues) (type : Option SolType)
    → AllOfType o type
    → OfType (array_with o) (array_of type)
array-OfType none type h = absurd h
array-OfType (some svs) none h = tt
array-OfType (some SolValues.nil) (some type) h = h
array-OfType (some (SolValues.cons sv svs)) (some type) h = h

tuple-OfType :
    (o : Option SolValues) (types : Option SolTypes)
    → OfTypes o types
    → OfType (tuple_with o) (tuple_of types)
tuple-OfType none types h = absurd h
tuple-OfType (some svs) none h = tt
tuple-OfType (some svs) (some types) h = h

cons-AllOfType :
    (o : Option SolValue) (os : Option SolValues) (type : Option SolType)
    → OfType o type
    → AllOfType os type
    → AllOfType (cons_value o os) type
cons-AllOfType none os type h hs = absurd h
cons-AllOfType (some sv) none type h hs = absurd hs
cons-AllOfType (some sv) (some svs) none h hs = tt
cons-AllOfType (some sv) (some svs) (some type) h hs = (h, hs)

cons-OfTypes :
    (o : Option SolValue) (os : Option SolValues) (type : Option SolType) (types : Option SolTypes)
    → OfType o type
    → OfTypes os types
    → OfTypes (cons_value o os) (cons_type type types)
cons-OfTypes none os type types h hs = absurd h
cons-OfTypes (some sv) none type types h hs = absurd hs
cons-OfTypes (some sv) (some svs) none types h hs = tt
cons-OfTypes (some sv) (some svs) (some type) none h hs = tt
cons-OfTypes (some sv) (some svs) (some type) (some types) h hs = (h, hs)

bytes-OfType :
    (xs : MoveValues)
    → AreU8 xs
    → OfType
        (move_value_to_sol_value (MoveValue.vector xs) (TypedLayout.vector TypedLayout.u8))
        (some SolType.bytes)
unfolding move_value_to_sol_value
bytes-OfType MoveValues.nil h = tt
bytes-OfType (MoveValues.cons (MoveValue.u8 x) xs) h =
    let (bytes, read, back) = u8_entries-back (MoveValues.cons (MoveValue.u8 x) xs) h in
    subst (λ o. OfType (bytes_of o) (some SolType.bytes)) (sym read) tt
bytes-OfType (MoveValues.cons _ xs) h = absurd h

vector-OfType :
    (xs : MoveValues) (inner : TypedLayout)
    → is_u8 inner ≡ false
    → AllFit xs inner
    → AllOfType (values_to_sol_values xs inner) (layout_to_sol_type inner)
    → OfType
        (move_value_to_sol_value (MoveValue.vector xs) (TypedLayout.vector inner))
        (array_of (layout_to_sol_type inner))
vector-OfType xs inner other fits all =
    subst (λ o. OfType o (array_of (layout_to_sol_type inner)))
      (sym (array_case xs inner other fits))
      (array-OfType (values_to_sol_values xs inner) (layout_to_sol_type inner) all)

nothing_typed : (type : Option SolType) → AllOfType (some SolValues.nil) type
nothing_typed none = tt
nothing_typed (some type) = tt

mutual
  unfolding move_value_to_sol_value layout_to_sol_type

  value-OfType :
      (mv : MoveValue) (layout : TypedLayout)
      → Fits mv layout
      → OfType (move_value_to_sol_value mv layout) (layout_to_sol_type layout)
  value-OfType (MoveValue.bool b) TypedLayout.bool h = tt
  value-OfType (MoveValue.u8 x) TypedLayout.u8 h = (refl, h)
  value-OfType (MoveValue.u16 x) TypedLayout.u16 h = (refl, h)
  value-OfType (MoveValue.u32 x) TypedLayout.u32 h = (refl, h)
  value-OfType (MoveValue.u64 x) TypedLayout.u64 h = (refl, h)
  value-OfType (MoveValue.u128 x) TypedLayout.u128 h = (refl, h)
  value-OfType (MoveValue.u256 x) TypedLayout.u256 h = (refl, h)
  value-OfType (MoveValue.address a) TypedLayout.address h = omega arith
  value-OfType (MoveValue.vector xs) (TypedLayout.vector TypedLayout.u8) h = bytes-OfType xs h
  value-OfType (MoveValue.vector xs) (TypedLayout.vector inner) h =
      vector-OfType xs inner refl h (values-AllOfType xs inner h)
  value-OfType (MoveValue.struct xs) (TypedLayout.struct account module_name name type_args layouts)
        h =
      let (no_bytes, no_array, no_string, fields) = h in
      rw (no_bytes, no_array, no_string)
        (tuple-OfType (fields_to_sol_values xs layouts) (layouts_to_sol_types layouts)
          (fields-OfTypes xs layouts fields))
  value-OfType _ _ h = absurd h

  values-AllOfType :
      (xs : MoveValues) (layout : TypedLayout)
      → AllFit xs layout
      → AllOfType (values_to_sol_values xs layout) (layout_to_sol_type layout)
  values-AllOfType MoveValues.nil layout h = nothing_typed (layout_to_sol_type layout)
  values-AllOfType (MoveValues.cons x xs) layout h =
      cons-AllOfType (move_value_to_sol_value x layout) (values_to_sol_values xs layout)
        (layout_to_sol_type layout) (value-OfType x layout h.0) (values-AllOfType xs layout h.1)

  fields-OfTypes :
      (xs : MoveValues) (layouts : TypedLayouts)
      → FieldsFit xs layouts
      → OfTypes (fields_to_sol_values xs layouts) (layouts_to_sol_types layouts)
  fields-OfTypes MoveValues.nil TypedLayouts.nil h = tt
  fields-OfTypes (MoveValues.cons x xs) (TypedLayouts.cons layout layouts) h =
      cons-OfTypes (move_value_to_sol_value x layout) (fields_to_sol_values xs layouts)
        (layout_to_sol_type layout) (layouts_to_sol_types layouts) (value-OfType x layout h.0)
        (fields-OfTypes xs layouts h.1)
  fields-OfTypes _ _ h = absurd h

-- A value that fits a layout with a Solidity type is encoded as a value of that type.
pub move_value_to_sol_value-HasType :
    (mv : MoveValue) (layout : TypedLayout) (type : SolType) (sv : SolValue)
    → Fits mv layout
    → layout_to_sol_type layout ≡ some type
    → move_value_to_sol_value mv layout ≡ some sv
    → HasType sv type
move_value_to_sol_value-HasType mv layout type sv fits typed made =
    rw (typed, made) at (value-OfType mv layout fits)
