-- ===== src/EvmExt/Solidity/Signers.antt =====
-- No signer comes out of the Solidity ABI.
use op_move.Base.{
  ℕ, ◌≡◌, Bool, true, false, Option, none, some, Bytes, [], ◌∷◌, ◌==◌, if◌then◌else◌,
}
use mathlib.Core.Path.{subst}
use op_move.MoveTypes.{MoveValue, MoveValues}
use op_move.EvmExt.Results.{vector_u8}
use op_move.EvmExt.Solidity.{TypedLayout, TypedLayouts, SolValue, SolValues}
use op_move.EvmExt.Solidity.Decoding.{
  vector_with, struct_with, cons_move, bytes_struct, uint_to_value, sol_to_value, sol_to_values,
  sol_to_fields,
}

-- There is no signer anywhere in the value.
abbrev mutual
  pub HasNoSigner : MoveValue → Type 0
  HasNoSigner (MoveValue.signer a) = ⊥
  HasNoSigner (MoveValue.vector values) = HaveNoSigner values
  HasNoSigner (MoveValue.struct fields) = HaveNoSigner fields
  HasNoSigner _ = Unit

  pub HaveNoSigner : MoveValues → Type 0
  HaveNoSigner MoveValues.nil = Unit
  HaveNoSigner (MoveValues.cons value values) = HasNoSigner value × HaveNoSigner values

abbrev pub IsFree : Option MoveValue → Type 0
IsFree none = Unit
IsFree (some value) = HasNoSigner value

abbrev AreFree : Option MoveValues → Type 0
AreFree none = Unit
AreFree (some values) = HaveNoSigner values

vector_u8-HaveNoSigner : (bytes : Bytes) → HaveNoSigner (vector_u8 bytes)
vector_u8-HaveNoSigner [] = tt
vector_u8-HaveNoSigner (b ∷ bytes) = (tt, vector_u8-HaveNoSigner bytes)

bytes_struct-HasNoSigner : (bytes : Bytes) → HasNoSigner (bytes_struct bytes)
bytes_struct-HasNoSigner bytes = (vector_u8-HaveNoSigner bytes, tt)

vector_with-IsFree : (o : Option MoveValues) → AreFree o → IsFree (vector_with o)
vector_with-IsFree none h = tt
vector_with-IsFree (some values) h = h

struct_with-IsFree : (o : Option MoveValues) → AreFree o → IsFree (struct_with o)
struct_with-IsFree none h = tt
struct_with-IsFree (some values) h = h

cons_move-AreFree :
    (o : Option MoveValue) (os : Option MoveValues)
    → IsFree o
    → AreFree os
    → AreFree (cons_move o os)
cons_move-AreFree none os h k = tt
cons_move-AreFree (some value) none h k = tt
cons_move-AreFree (some value) (some values) h k = (h, k)

test-IsFree :
    (b : Bool) (value : MoveValue) → HasNoSigner value → IsFree (if b then some value else none)
test-IsFree true value h = h
test-IsFree false value h = tt

uint_to_value-IsFree : (u size : ℕ) (layout : TypedLayout) → IsFree (uint_to_value u size layout)
uint_to_value-IsFree u size TypedLayout.u8 = test-IsFree (size == 8) _ tt
uint_to_value-IsFree u size TypedLayout.u16 = test-IsFree (size == 16) _ tt
uint_to_value-IsFree u size TypedLayout.u32 = test-IsFree (size == 32) _ tt
uint_to_value-IsFree u size TypedLayout.u64 = test-IsFree (size == 64) _ tt
uint_to_value-IsFree u size TypedLayout.u128 = test-IsFree (size == 128) _ tt
uint_to_value-IsFree u size TypedLayout.u256 = test-IsFree (size == 256) _ tt
uint_to_value-IsFree u size _ = tt

mutual
  unfolding sol_to_value

  sol_to_value-IsFree : (sv : SolValue) (layout : TypedLayout) → IsFree (sol_to_value sv layout)
  sol_to_value-IsFree (SolValue.uint u size) layout = uint_to_value-IsFree u size layout
  sol_to_value-IsFree (SolValue.bool b) TypedLayout.bool = tt
  sol_to_value-IsFree (SolValue.fixed_bytes w size) (TypedLayout.struct _ _ _ _ _) =
      bytes_struct-HasNoSigner w
  sol_to_value-IsFree (SolValue.address a) TypedLayout.address = tt
  sol_to_value-IsFree (SolValue.bytes b) (TypedLayout.vector TypedLayout.u8) =
      vector_u8-HaveNoSigner b
  sol_to_value-IsFree (SolValue.text s) (TypedLayout.struct _ _ _ _ _) = bytes_struct-HasNoSigner s
  sol_to_value-IsFree (SolValue.array a) (TypedLayout.vector inner) =
      vector_with-IsFree (sol_to_values a inner) (sol_to_values-AreFree a inner)
  sol_to_value-IsFree (SolValue.tuple t) (TypedLayout.struct _ _ _ _ fields) =
      struct_with-IsFree (sol_to_fields t fields) (sol_to_fields-AreFree t fields)
  sol_to_value-IsFree _ _ = tt

  sol_to_values-AreFree :
      (svs : SolValues) (layout : TypedLayout) → AreFree (sol_to_values svs layout)
  sol_to_values-AreFree SolValues.nil layout = tt
  sol_to_values-AreFree (SolValues.cons sv svs) layout =
      cons_move-AreFree (sol_to_value sv layout) (sol_to_values svs layout)
        (sol_to_value-IsFree sv layout) (sol_to_values-AreFree svs layout)

  sol_to_fields-AreFree :
      (svs : SolValues) (layouts : TypedLayouts) → AreFree (sol_to_fields svs layouts)
  sol_to_fields-AreFree (SolValues.cons sv svs) (TypedLayouts.cons layout layouts) =
      cons_move-AreFree (sol_to_value sv layout) (sol_to_fields svs layouts)
        (sol_to_value-IsFree sv layout) (sol_to_fields-AreFree svs layouts)
  sol_to_fields-AreFree _ _ = tt

some-HasNoSigner :
    (o : Option MoveValue) {value : MoveValue} → o ≡ some value → IsFree o → HasNoSigner value
some-HasNoSigner none e h = cc
some-HasNoSigner (some made) e h = subst IsFree e h

-- No value that is decoded from the Solidity ABI holds a signer at any depth, whatever layout it is
-- decoded at and whatever the Solidity value is.
pub sol_to_value-HasNoSigner :
    (sv : SolValue) (layout : TypedLayout) (value : MoveValue)
    → sol_to_value sv layout ≡ some value
    → HasNoSigner value
sol_to_value-HasNoSigner sv layout value e =
    some-HasNoSigner (sol_to_value sv layout) e (sol_to_value-IsFree sv layout)
