-- ===== src/Transaction/Reading.antt =====
-- What `TransactionData::parse_from` accepts, and that it reads back `TransactionData::to_bytes`.
use mathlib.Core.Path.{subst}
use op_move.Base.{
  ◌≤◌, ◌≡◌, ◌≢◌, ◌↔◌, refl, sym, ap, true, false, [], ◌∷◌, Address, Bytes, arith, ==_iff, ◌==◌,
  Bool-cases, inl, inr,
}
use op_move.Primitives.{to_move_address}
use op_move.Error.{ok, ◌>>=◌}
use op_move.Transaction.Types.{
  TxKind, NormalizedEthTransaction, TransactionData, SerializableTransactionData,
  ScriptOrDeployment,
}
use op_move.Transaction.Parse.{
  Decoded, decoded, undecoded, from_decoded, is_empty, parse_call_data, serializable, Codec,
  ReadsBack, l2_lowest_address, l2_highest_address, is_l2_contract, parse_from, parse_to, to_bytes,
}

abbrev IsL2 : Address → Type 0
IsL2 to = (l2_lowest_address ≤ to) × (to ≤ l2_highest_address)

-- Where parsed data may have come from: the destination and the call data of its transaction, with
-- what the codec reads from that.
abbrev pub Destination : Codec → TxKind → Bytes → TransactionData → Type 0
Destination c (TxKind.call to) input (TransactionData.l2_contract contract) =
    (contract ≡ to) × IsL2 to
Destination c (TxKind.call to) input (TransactionData.eoa_base_token_transfer target) =
    (target ≡ to) × (input ≡ []) × ¬ IsL2 to
Destination c (TxKind.call to) input (TransactionData.entry_function f) =
    (c.decode_data input ≡ decoded (SerializableTransactionData.entry_function f))
    × (f.module_id.address ≡ to_move_address to)
    × (input ≢ [])
    × ¬ IsL2 to
Destination c (TxKind.call to) input (TransactionData.evm_contract address code) =
    (c.decode_data input ≡ decoded (SerializableTransactionData.evm_contract code))
    × (address ≡ to)
    × (input ≢ [])
    × ¬ IsL2 to
Destination c (TxKind.call to) input (TransactionData.script_or_deployment x) = ⊥
Destination c TxKind.create input (TransactionData.script_or_deployment x) =
    c.decode_script_or_deployment input ≡ decoded x
Destination c TxKind.create input _ = ⊥

-- What is parsed of decoded call data.
abbrev Carried : Address → Decoded SerializableTransactionData → TransactionData → Type 0
Carried to o (TransactionData.entry_function f) =
    (o ≡ decoded (SerializableTransactionData.entry_function f))
    × (f.module_id.address ≡ to_move_address to)
Carried to o (TransactionData.evm_contract address code) =
    (o ≡ decoded (SerializableTransactionData.evm_contract code)) × (address ≡ to)
Carried to o _ = ⊥

Carried-sound :
    (to : Address) (o : Decoded SerializableTransactionData) (d : TransactionData)
    → (do tx_data ← from_decoded o; parse_call_data to tx_data) ≡ ok d
    → Carried to o d
unfolding parse_call_data
Carried-sound to (undecoded e) d h = cc
Carried-sound to (decoded (SerializableTransactionData.evm_contract code)) d h =
    subst (Carried to (decoded (SerializableTransactionData.evm_contract code)))
      (let e : TransactionData.evm_contract to code ≡ d = cc in e) (refl, refl)
Carried-sound to (decoded (SerializableTransactionData.entry_function f)) d h =
    elim (Bool-cases (f.module_id.address == to_move_address to)) [
      | inl same ↦
          subst (Carried to (decoded (SerializableTransactionData.entry_function f)))
            (let e : TransactionData.entry_function f ≡ d = cc (rw same at h) in e)
            (refl, (==_iff f.module_id.address (to_move_address to)).0 same)
      | inr other ↦ cc (rw other at h)
    ]
Carried-sound to (decoded (SerializableTransactionData.eoa_base_token_transfer a)) d h = cc
Carried-sound to (decoded (SerializableTransactionData.script_or_deployment x)) d h = cc
Carried-sound to (decoded (SerializableTransactionData.l2_contract a)) d h = cc

some_input : (input : Bytes) → is_empty input ≡ false → input ≢ []
some_input [] e h = cc
some_input (b ∷ input) e h = cc

filled_input : (input : Bytes) → input ≢ [] → is_empty input ≡ false
filled_input [] h = absurd (h refl)
filled_input (b ∷ input) h = refl

no_input : (input : Bytes) → is_empty input ≡ true → input ≡ []
no_input [] e = refl
no_input (b ∷ input) e = cc

IsL2-iff : (to : Address) → (is_l2_contract to ≡ true) ↔ IsL2 to
IsL2-iff to = (λ e. ground arith, λ h. ground arith)

not_l2 : (to : Address) → ¬ IsL2 to → is_l2_contract to ≡ false
not_l2 to h = elim (Bool-cases (is_l2_contract to)) [
  | inl l ↦ absurd (h ((IsL2-iff to).0 l))
  | inr l ↦ l
]

module _ (c : Codec) where
  of_Carried :
      (to : Address) (input : Bytes) (d : TransactionData)
      → is_l2_contract to ≡ false
      → is_empty input ≡ false
      → Carried to (c.decode_data input) d
      → Destination c (TxKind.call to) input d
  of_Carried to input (TransactionData.entry_function f) l i h =
      (h.0, h.1, some_input input i, λ k. cc ((IsL2-iff to).1 k))
  of_Carried to input (TransactionData.evm_contract address code) l i h =
      (h.0, h.1, some_input input i, λ k. cc ((IsL2-iff to).1 k))
  of_Carried to input (TransactionData.eoa_base_token_transfer _) l i h = absurd h
  of_Carried to input (TransactionData.script_or_deployment _) l i h = absurd h
  of_Carried to input (TransactionData.l2_contract _) l i h = absurd h

  call_sound :
      (to : Address) (input : Bytes) (d : TransactionData)
      → parse_to c (TxKind.call to) input ≡ ok d
      → Destination c (TxKind.call to) input d
  unfolding parse_to
  call_sound to input d h = elim (Bool-cases (is_l2_contract to)) [
    | inl l ↦
        subst (Destination c (TxKind.call to) input)
          (let e : TransactionData.l2_contract to ≡ d = cc (rw l at h) in e)
          (refl, (IsL2-iff to).0 l)
    | inr l ↦ elim (Bool-cases (is_empty input)) [
      | inl i ↦
          subst (Destination c (TxKind.call to) input)
            (let e : TransactionData.eoa_base_token_transfer to ≡ d = cc (rw (l, i) at h) in e)
            (refl, no_input input i, λ k. cc ((IsL2-iff to).1 k))
      | inr i ↦
          of_Carried to input d l i (Carried-sound to (c.decode_data input) d (rw (l, i) at h))
    ]
  ]

  create_sound :
      (input : Bytes) (o : Decoded ScriptOrDeployment) (d : TransactionData)
      → c.decode_script_or_deployment input ≡ o
      → (do
        script_or_module ← from_decoded o
        ok (TransactionData.script_or_deployment script_or_module))
        ≡ ok d
      → Destination c TxKind.create input d
  create_sound input (undecoded e) d eo h = cc
  create_sound input (decoded x) d eo h =
      subst (Destination c TxKind.create input)
        (let e : TransactionData.script_or_deployment x ≡ d = cc in e) eo

  parse_to_sound :
      (to : TxKind) (input : Bytes) (d : TransactionData)
      → parse_to c to input ≡ ok d
      → Destination c to input d
  unfolding parse_to
  parse_to_sound (TxKind.call to) input d h = call_sound to input d h
  parse_to_sound TxKind.create input d h =
      create_sound input (c.decode_script_or_deployment input) d refl h

  parse_to_complete :
      (to : TxKind) (input : Bytes) (d : TransactionData)
      → Destination c to input d
      → parse_to c to input ≡ ok d
  unfolding parse_to parse_call_data
  parse_to_complete (TxKind.call to) input (TransactionData.l2_contract contract) h =
      rw ((IsL2-iff to).1 h.1) (ap (λ a. ok (TransactionData.l2_contract a)) (sym h.0))
  parse_to_complete (TxKind.call to) input (TransactionData.eoa_base_token_transfer target) h =
      rw (not_l2 to h.2, h.1) (ap (λ a. ok (TransactionData.eoa_base_token_transfer a)) (sym h.0))
  parse_to_complete (TxKind.call to) input (TransactionData.entry_function f) h =
      rw
        (
          not_l2 to h.3,
          filled_input input h.2,
          h.0,
          (==_iff f.module_id.address (to_move_address to)).1 h.1,
        )
        refl
  parse_to_complete (TxKind.call to) input (TransactionData.evm_contract address code) h =
      rw (not_l2 to h.3, filled_input input h.2, h.0)
        (ap (λ a. ok (TransactionData.evm_contract a code)) (sym h.1))
  parse_to_complete (TxKind.call to) input (TransactionData.script_or_deployment x) h = absurd h
  parse_to_complete TxKind.create input (TransactionData.script_or_deployment x) h = rw h refl
  parse_to_complete TxKind.create input _ h = absurd h

  -- A transaction is accepted as some data exactly if that fits its destination and its call data. A
  -- call in the L2 range is an L2 call, whatever its input; outside it, an empty call is a transfer,
  -- any other call is what the codec reads from the input, an entry function of the account called or
  -- EVM code for the address called; and a creation is the script or deployment read from the input.
  pub parse_from_iff :
      (tx : NormalizedEthTransaction) (d : TransactionData)
      → (parse_from c tx ≡ ok d) ↔ Destination c tx.to tx.input d
  unfolding parse_from
  parse_from_iff tx d = (parse_to_sound tx.to tx.input d, parse_to_complete tx.to tx.input d)

-- The data that a transaction to `to` can carry.
abbrev pub CallsTo : Address → TransactionData → Type 0
CallsTo to (TransactionData.entry_function f) = f.module_id.address ≡ to_move_address to
CallsTo to (TransactionData.evm_contract address code) = address ≡ to
CallsTo to _ = ⊥

-- A call outside the L2 range whose input is the serialised data of an entry function of the
-- destination, or of an EVM call to it, parses to that data.
pub parse_from-to_bytes :
    (c : Codec) (tx : NormalizedEthTransaction) (to : Address) (data' : TransactionData)
    → ReadsBack c (serializable data')
    → is_l2_contract to ≡ false
    → CallsTo to data'
    → parse_from c (record tx { to = TxKind.call to; input = to_bytes c data' }) ≡ ok data'
unfolding parse_from to_bytes serializable
parse_from-to_bytes c tx to (TransactionData.entry_function f) i l h =
    rw (l, i.encode_data-nonempty, i.data_roundtrip, (==_iff _ _).1 h)
parse_from-to_bytes c tx to (TransactionData.evm_contract address code) i l h =
    rw (l, i.encode_data-nonempty, i.data_roundtrip, h)
parse_from-to_bytes c tx to (TransactionData.eoa_base_token_transfer _) i l h = absurd h
parse_from-to_bytes c tx to (TransactionData.script_or_deployment _) i l h = absurd h
parse_from-to_bytes c tx to (TransactionData.l2_contract _) i l h = absurd h
