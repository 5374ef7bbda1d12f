-- ===== src/EvmExt/Storage/Slots.antt =====
-- What is read of a slot after a slot has been written.
use op_move.Base.Partial.{◌>>=◌}
use op_move.Base.{
  ℕ, ◌≡◌, refl, ◌∙◌, sym, ap, true, false, Option, none, some, B256, Bytes, unwrap_or, ◌==◌,
  if◌then◌else◌, Bool-cases, inl, inr, arith,
}
use op_move.EvmExt.Storage.{EthTrie, get_slot, insert_slot, decoded}

-- What the program relies on of tries and of the encoding of words.
pub record IsEthTrie (lib : EthTrie) : Type 0 where
  pub get-insert :
      (trie : lib.Trie) (key other : B256) (value : Bytes) {after : lib.Trie}
      → lib.insert_bytes trie key value ≡ some after
      → lib.get_bytes after other
        ≡ (if key == other then some (some value) else lib.get_bytes trie other)
  pub get-remove :
      (trie : lib.Trie) (key other : B256) {after : lib.Trie}
      → lib.remove_key trie key ≡ some after
      → lib.get_bytes after other ≡ (if key == other then some none else lib.get_bytes trie other)
  pub decode-encode : (value : ℕ) → lib.decode_word (lib.encode_word value) ≡ some value

module _ (lib : EthTrie) where
  -- A slot without an entry is zero.
  unfoldable pub slot : lib.Trie → ℕ → Option ℕ
  unfolding get_slot
  slot trie index = do value ← get_slot lib trie index; some (unwrap_or value 0)

module _ (lib : EthTrie) (law : IsEthTrie lib) where
  slot_of : Option (Option Bytes) → Option ℕ
  slot_of o = do bytes ← o; value ← decoded lib bytes; some (unwrap_or value 0)

  slot-eq :
      (trie : lib.Trie) (index : ℕ)
      → slot lib trie index ≡ slot_of (lib.get_bytes trie (lib.keccak256 index))
  unfolding slot get_slot slot_of
  slot-eq trie index = joined (lib.get_bytes trie (lib.keccak256 index))
    where
      joined :
          (o : Option (Option Bytes))
          → (do value ← (do bytes ← o; decoded lib bytes); some (unwrap_or value 0)) ≡ slot_of o
      joined none = refl
      joined (some bytes) = refl

  -- What a slot reads from what stands at its key.
  slot_at :
      (trie after : lib.Trie) (index other value : ℕ) (bytes : Option Bytes)
      → (lib.keccak256 index == lib.keccak256 other) ≡ (index == other)
      → lib.get_bytes after (lib.keccak256 other) ≡ (
          if lib.keccak256 index == lib.keccak256 other
          then some bytes
          else lib.get_bytes trie (lib.keccak256 other))
      → slot_of (some bytes) ≡ some value
      → slot lib after other ≡ (if index == other then some value else slot lib trie other)
  slot_at trie after index other value bytes apart stands reads =
      slot-eq after other ∙ elim (Bool-cases (index == other)) [
        | inl e ↦ rw (stands, apart, e) reads
        | inr e ↦ rw (stands, apart, e) (sym (slot-eq trie other))
      ]

  written : (value : ℕ) → slot_of (some (some (lib.encode_word value))) ≡ some value
  unfolding slot_of
  written value = rw law.decode-encode

  cleared : (value : ℕ) → (value == 0) ≡ true → slot_of (some none) ≡ some value
  unfolding slot_of
  cleared value zero = ap some (ground arith)

  -- After a slot has been written its value is read from it, zero included, and any other slot whose
  -- key has another hash reads as before.
  pub slot-insert_slot :
      (trie : lib.Trie) (index other value : ℕ) {after : lib.Trie}
      → (lib.keccak256 index == lib.keccak256 other) ≡ (index == other)
      → insert_slot lib trie index value ≡ some after
      → slot lib after other ≡ (if index == other then some value else slot lib trie other)
  unfolding insert_slot
  slot-insert_slot trie index other value {after = after} apart h = elim (Bool-cases (value == 0)) [
    | inl e ↦
        slot_at trie after index other value none apart
          (law.get-remove trie (lib.keccak256 index) (lib.keccak256 other) (sym (removed e) ∙ h))
          (cleared value e)
    | inr e ↦
        slot_at trie after index other value (some (lib.encode_word value)) apart
          (law.get-insert trie (lib.keccak256 index) (lib.keccak256 other) (lib.encode_word value)
            (sym (inserted e) ∙ h))
          (written value)
  ]
    where
      removed :
          (value == 0) ≡ true
          → insert_slot lib trie index value ≡ lib.remove_key trie (lib.keccak256 index)
      removed e = rw e

      inserted :
          (value == 0) ≡ false
          → insert_slot lib trie index value
            ≡ lib.insert_bytes trie (lib.keccak256 index) (lib.encode_word value)
      inserted e = rw e
