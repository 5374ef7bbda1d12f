-- ===== src/State/Kinds.antt =====
-- Under the key of a resource a change set writes only resources of the same kind: accounts of the
-- EVM, or state values.
use mathlib.Core.Path.{subst}
use op_move.Base.{
  ◌≡◌, ◌≢◌, refl, sym, ap, ◌∙◌, Bool, true, false, List, [], ◌∷◌, ◌++◌, Option, none, some,
  AccountAddress, Address, Bytes, if◌then◌else◌, Bool-cases, inl, inr,
}
use op_move.Base.Partial.{◌>>=◌}
use Prim.Native.String.{String}
use op_move.State.{
  Encodings, ChangeSet, Op, StructTag, TreeKey, TreeValue, TreeValues, same_key, stored,
  resource_key, resource_value, resource_entries, module_entries, change_entries, or_state_key,
  evm_key_address, is_evm_storage_or_account_key,
}
use op_move.State.Values.{same_key_iff, last_of, non_empty}

-- What the program relies on of Aptos: state values read back and are not empty, a state key of a
-- resource names its type, and it is not that of a module.
pub record IsEncodings (lib : Encodings) : Type 0 where
  pub state_value : (value : Bytes) → lib.state_value_of (lib.state_value_bytes value) ≡ some value
  pub state_value_some :
      (value : Bytes) → non_empty (lib.state_value_bytes value) ≡ some (lib.state_value_bytes value)
  pub resource :
      (a b : AccountAddress) (k j : StructTag) (key : Bytes)
      → lib.resource_state_key a k ≡ some key
      → lib.resource_state_key b j ≡ some key
      → k ≡ j
  pub modules :
      (a b : AccountAddress) (name : String) (k : StructTag)
      → lib.resource_state_key a k ≢ some (lib.module_key b name)

-- Values of the EVM stand as they are, other values as state values.
abbrev pub has_kind : Bool → TreeValue → Bool
has_kind is_evm TreeValue.deleted = true
has_kind is_evm (TreeValue.state_value bytes) = if is_evm then false else true
has_kind is_evm (TreeValue.evm_value bytes) = is_evm

abbrev pub AllKind : TreeKey → Bool → TreeValues → Type 0
AllKind k is_evm [] = Unit
AllKind k is_evm ((j, v) ∷ entries) = (j ≡ k → has_kind is_evm v ≡ true) × AllKind k is_evm entries

AllKind-append :
    (k : TreeKey) (b : Bool) (xs ys : TreeValues)
    → AllKind k b xs
    → AllKind k b ys
    → AllKind k b (xs ++ ys)
AllKind-append k b [] ys hx hy = hy
AllKind-append k b (x ∷ xs) ys hx hy = (hx.0, AllKind-append k b xs ys hx.1 hy)

pub last_of-has_kind :
    (k : TreeKey) (b : Bool) (entries : TreeValues) (v : TreeValue)
    → AllKind k b entries
    → last_of k entries ≡ some v
    → has_kind b v ≡ true
last_of-has_kind k b [] v h e = cc
last_of-has_kind k b ((j, w) ∷ entries) v h e =
    at_rest (last_of k entries) refl (λ rest. last_of-has_kind k b entries v h.1 rest)
  where
    at_rest :
        (o : Option TreeValue)
        → last_of k entries ≡ o
        → (last_of k entries ≡ some v → has_kind b v ≡ true)
        → has_kind b v ≡ true
    at_rest (some u) rest ih = ih (rest ∙ (rw rest at e))
    at_rest none rest ih = elim (Bool-cases (same_key j k)) [
      | inl here ↦
          let same : w ≡ v = cc (rw (rest, here) at e) in
          ap (has_kind b) (sym same) ∙ h.0 ((same_key_iff j k).0 here)
      | inr there ↦ cc (rw (rest, there) at e)
    ]

stored_kind :
    (op : Op) (b : Bool)
    → has_kind b (if b then stored TreeValue.evm_value op else stored TreeValue.state_value op)
      ≡ true
stored_kind (Op.new bytes) true = refl
stored_kind (Op.new bytes) false = refl
stored_kind (Op.modify bytes) true = refl
stored_kind (Op.modify bytes) false = refl
stored_kind Op.delete true = refl
stored_kind Op.delete false = refl

module _ (lib : Encodings) where
  evm_key_address-kind :
      (k : StructTag) (address : Address)
      → evm_key_address lib k ≡ some address
      → is_evm_storage_or_account_key k ≡ true
  unfolding evm_key_address
  evm_key_address-kind k address e = elim (Bool-cases (is_evm_storage_or_account_key k)) [
    | inl b ↦ b
    | inr b ↦ cc (rw b at e)
  ]

  module _ (law : IsEncodings lib) (a : AccountAddress) (k : StructTag) where
    -- Two resources under one key are of one kind.
    same_kind :
        (b : AccountAddress) (j : StructTag)
        → (p q : Option Address) → evm_key_address lib k ≡ p
        → evm_key_address lib j ≡ q
        → (r s : Option Bytes) → lib.resource_state_key a k ≡ r
        → lib.resource_state_key b j ≡ s
        → (key : TreeKey) → or_state_key lib p r ≡ some key
        → or_state_key lib q s ≡ some key
        → is_evm_storage_or_account_key j ≡ is_evm_storage_or_account_key k
    same_kind b j (some x) (some y) ep eq r s er es key hp hq =
        evm_key_address-kind j y eq ∙ sym (evm_key_address-kind k x ep)
    same_kind b j none none ep eq (some r) (some s) er es key hp hq =
        let e : r ≡ s = cc in
        ap is_evm_storage_or_account_key (sym (law.resource a b k j r er (es ∙ ap some (sym e))))
    same_kind b j none none ep eq none s er es key hp hq = cc
    same_kind b j none none ep eq (some r) none er es key hp hq = cc
    same_kind b j (some x) none ep eq r none er es key hp hq = cc
    same_kind b j (some x) none ep eq r (some s) er es key hp hq = cc
    same_kind b j none (some y) ep eq none s er es key hp hq = cc
    same_kind b j none (some y) ep eq (some r) s er es key hp hq = cc

    kind_of_resource :
        (key : TreeKey)
        → resource_key lib a k ≡ some key
        → (b : AccountAddress) (j : StructTag) (op : Op) (other : TreeKey)
        → resource_key lib b j ≡ some other
        → other ≡ key
        → has_kind (is_evm_storage_or_account_key k) (resource_value j op) ≡ true
    unfolding resource_key resource_value
    kind_of_resource key hk b j op other hj e =
        let same =
          same_kind b j (evm_key_address lib k) (evm_key_address lib j) refl refl
            (lib.resource_state_key a k) (lib.resource_state_key b j) refl refl key hk
            (hj ∙ ap some e) in
        subst (λ x. has_kind x (resource_value j op) ≡ true) same
          (stored_kind op (is_evm_storage_or_account_key j))

    module _ (key : TreeKey) (hk : resource_key lib a k ≡ some key) where
      resources_kind :
          (b : AccountAddress) (resources : List (StructTag × Op)) (entries : TreeValues)
          → resource_entries lib b resources ≡ some entries
          → AllKind key (is_evm_storage_or_account_key k) entries
      unfolding resource_entries
      resources_kind b [] entries e =
          subst (AllKind key (is_evm_storage_or_account_key k)) (let h : [] ≡ entries = cc in h) tt
      resources_kind b ((j, op) ∷ resources) entries e =
          at_key (resource_key lib b j) refl (resource_entries lib b resources) refl
            (resources_kind b resources)
        where
          at_key :
              (o : Option TreeKey)
              → resource_key lib b j ≡ o
              → (r : Option TreeValues) → resource_entries lib b resources ≡ r
              → ((rest : TreeValues)
                  → resource_entries lib b resources ≡ some rest
                  → AllKind key (is_evm_storage_or_account_key k) rest)
              → AllKind key (is_evm_storage_or_account_key k) entries
          at_key none eo r er ih = cc (rw eo at e)
          at_key (some other) eo none er ih = cc (rw (eo, er) at e)
          at_key (some other) eo (some rest) er ih =
              let same : ((other, resource_value j op) ∷ rest) ≡ entries = cc (rw (eo, er) at e) in
              subst (AllKind key (is_evm_storage_or_account_key k)) same
                (λ h. kind_of_resource key hk b j op other eo h, ih rest er)

      no_module :
          (b : AccountAddress) (name : String) → TreeKey.state_key (lib.module_key b name) ≢ key
      unfolding resource_key
      no_module b name e =
          at_key (evm_key_address lib k) (lib.resource_state_key a k) refl (hk ∙ ap some (sym e))
        where
          at_key :
              (p : Option Address) (r : Option Bytes)
              → lib.resource_state_key a k ≡ r
              → or_state_key lib p r ≡ some (TreeKey.state_key (lib.module_key b name))
              → ⊥
          at_key (some x) r er h = cc
          at_key none none er h = cc
          at_key none (some r) er h =
              law.modules a b name k (er ∙ (let g : r ≡ lib.module_key b name = cc in ap some g))

      modules_kind :
          (b : AccountAddress) (modules : List (String × Op))
          → AllKind key (is_evm_storage_or_account_key k) (module_entries lib b modules)
      modules_kind b [] = tt
      modules_kind b ((name, op) ∷ modules) =
          (λ e. absurd (no_module b name e), modules_kind b modules)

      pub changes_kind :
          (changes : ChangeSet) (entries : TreeValues)
          → change_entries lib changes ≡ some entries
          → AllKind key (is_evm_storage_or_account_key k) entries
      unfolding change_entries
      changes_kind [] entries e =
          subst (AllKind key (is_evm_storage_or_account_key k)) (let h : [] ≡ entries = cc in h) tt
      changes_kind ((b, changes) ∷ accounts) entries e =
          joined (resource_entries lib b changes.resources) (change_entries lib accounts) refl refl
            (changes_kind accounts) e
        where
          joined :
              (r o : Option TreeValues)
              → resource_entries lib b changes.resources ≡ r
              → change_entries lib accounts ≡ o
              → ((rest : TreeValues)
                  → change_entries lib accounts ≡ some rest
                  → AllKind key (is_evm_storage_or_account_key k) rest)
              → (do
                resources ← r
                rest ← o
                some ((module_entries lib b changes.modules ++ resources) ++ rest))
                ≡ some entries
              → AllKind key (is_evm_storage_or_account_key k) entries
          joined none o er eo ih h = cc
          joined (some resources) none er eo ih h = cc
          joined (some resources) (some rest) er eo ih h =
              let kind = is_evm_storage_or_account_key k in
              let same : ((module_entries lib b changes.modules ++ resources) ++ rest) ≡ entries =
                cc in
              subst (AllKind key kind) same (
                AllKind-append key kind (module_entries lib b changes.modules ++ resources) rest
                  (AllKind-append key kind (module_entries lib b changes.modules) resources
                    (modules_kind b changes.modules)
                    (resources_kind b changes.resources resources er))
                  (ih rest eo))
