-- ===== src/EvmExt/Storage/Sessions.antt =====
-- Which root a session records for an account that several calls of the EVM have touched.
use op_move.Base.Partial.{◌>>=◌, >>=-eq-some}
use op_move.Base.{
  Bool, not, ◌&&◌, ◌≡◌, refl, ◌∙◌, sym, ap, true, false, List, [], ◌∷◌, ◌++◌, Option, none, some,
  Address, B256, lookup, remove, lookup-insert, lookup-remove, ◌==◌, if◌then◌else◌, Bool-cases, inl,
  inr, eq_refl,
}
use op_move.EvmExt.Storage.{
  EthTrie, StorageDb, StorageTrieChanges, StorageTriesChanges, EvmAccount, EvmState, is_unchanged,
  merged, with_trie_changes, storage_changes, add_account, add_state, add_states,
  extract_storage_changes,
}

-- The root that is recorded for an account.
abbrev pub root_of : Option StorageTrieChanges → Option B256
root_of none = none
root_of (some changes) = some changes.root

abbrev pub recorded_root : Address → StorageTriesChanges → Option B256
recorded_root address tries = root_of (lookup address tries)

-- No entry for the account is one that changes it.
abbrev pub IsQuiet : Address → EvmState → Type 0
IsQuiet address [] = Unit
IsQuiet address ((other, account) ∷ accounts) =
    (((other == address) && not (is_unchanged account)) ≡ false) × IsQuiet address accounts

abbrev pub AreQuiet : Address → List EvmState → Type 0
AreQuiet address [] = Unit
AreQuiet address (state ∷ states) = IsQuiet address state × AreQuiet address states

merged-root :
    (o : Option StorageTrieChanges) (changes : StorageTrieChanges)
    → (merged o changes).root ≡ changes.root
unfolding merged
merged-root none changes = refl
merged-root (some old) changes = refl

with_trie_changes-root :
    (tries : StorageTriesChanges) (address other : Address) (changes : StorageTrieChanges)
    → recorded_root other (with_trie_changes tries address changes)
      ≡ (if address == other then some changes.root else recorded_root other tries)
unfolding with_trie_changes
with_trie_changes-root tries address other changes = elim (Bool-cases (address == other)) [
  | inl e ↦
      rw
        (
          lookup-insert address other (merged (lookup address tries) changes)
              (remove address tries),
          e,
        )
        (ap some (merged-root (lookup address tries) changes))
  | inr e ↦ rw (
    lookup-insert address other (merged (lookup address tries) changes) (remove address tries),
    e,
    lookup-remove address other tries,
    e,
  )
]

some-injective : {A : Type 0} {a b : A} → some a ≡ some b → a ≡ b
some-injective e = cc

module _ (lib : EthTrie) (dbs : Address → StorageDb) where
  add_account-other :
      (address other : Address) (account : EvmAccount) (tries : StorageTriesChanges)
      {result : StorageTriesChanges}
      → ((other == address) && not (is_unchanged account)) ≡ false
      → add_account lib dbs other account tries ≡ some result
      → recorded_root address result ≡ recorded_root address tries
  unfolding add_account
  add_account-other address other account tries quiet h = elim (Bool-cases (is_unchanged account)) [
    | inl e ↦ ap (recorded_root address) (sym (some-injective (sym (unchanged e) ∙ h)))
    | inr e ↦
        let (changes, _, made) =
          >>=-eq-some (storage_changes lib (dbs other) account) _ (sym (changed e) ∙ h) in
        ap (recorded_root address) (sym (some-injective made))
        ∙ with_trie_changes-root tries other address changes
        ∙ rw (apart (other == address) (is_unchanged account) e quiet) refl
  ]
    where
      unchanged : is_unchanged account ≡ true → add_account lib dbs other account tries ≡ some tries
      unchanged e = rw e

      changed :
          is_unchanged account ≡ false
          → add_account lib dbs other account tries ≡ (do
            changes ← storage_changes lib (dbs other) account
            some (with_trie_changes tries other changes))
      changed e = rw e

      apart : (b u : Bool) → u ≡ false → (b && not u) ≡ false → b ≡ false
      apart true u e q = cc (rw e at q)
      apart false u e q = refl

  add_state-quiet :
      (address : Address) (state : EvmState) (tries : StorageTriesChanges)
      {result : StorageTriesChanges}
      → IsQuiet address state
      → add_state lib dbs state tries ≡ some result
      → recorded_root address result ≡ recorded_root address tries
  unfolding add_state
  add_state-quiet address [] tries quiet h = ap (recorded_root address) (sym (some-injective h))
  add_state-quiet address ((other, account) ∷ accounts) tries quiet h =
      let (middle, added, rest) = >>=-eq-some (add_account lib dbs other account tries) _ h in
      add_state-quiet address accounts middle quiet.1 rest
      ∙ add_account-other address other account tries quiet.0 added

  add_states-quiet :
      (address : Address) (states : List EvmState) (tries : StorageTriesChanges)
      {result : StorageTriesChanges}
      → AreQuiet address states
      → add_states lib dbs states tries ≡ some result
      → recorded_root address result ≡ recorded_root address tries
  unfolding add_states
  add_states-quiet address [] tries quiet h = ap (recorded_root address) (sym (some-injective h))
  add_states-quiet address (state ∷ states) tries quiet h =
      let (middle, added, rest) = >>=-eq-some (add_state lib dbs state tries) _ h in
      add_states-quiet address states middle quiet.1 rest
      ∙ add_state-quiet address state tries quiet.0 added

  add_account-root :
      (address : Address) (account : EvmAccount) (tries : StorageTriesChanges)
      {result : StorageTriesChanges}
      → is_unchanged account ≡ false
      → add_account lib dbs address account tries ≡ some result
      → (changes : StorageTrieChanges) × (storage_changes lib (dbs address) account ≡ some changes)
        × (recorded_root address result ≡ some changes.root)
  unfolding add_account
  add_account-root address account tries touched h =
      let (changes, computed, made) =
        >>=-eq-some (storage_changes lib (dbs address) account) _ (sym changed ∙ h) in
      (
        changes,
        computed,
        ap (recorded_root address) (sym (some-injective made))
            ∙ with_trie_changes-root tries address address changes
            ∙ rw eq_refl refl,
      )
    where
      changed : add_account lib dbs address account tries ≡ (do
        changes ← storage_changes lib (dbs address) account
        some (with_trie_changes tries address changes))
      changed = rw touched

  -- The walk comes to every part of its list.
  add_state-part :
      (front rest : EvmState) (tries : StorageTriesChanges) {result : StorageTriesChanges}
      → add_state lib dbs (front ++ rest) tries ≡ some result
      → (middle : StorageTriesChanges) × (add_state lib dbs rest middle ≡ some result)
  unfolding add_state
  add_state-part [] rest tries h = (tries, h)
  add_state-part ((other, account) ∷ front) rest tries h =
      let (middle, _, after) = >>=-eq-some (add_account lib dbs other account tries) _ h in
      add_state-part front rest middle after

  add_states-part :
      (earlier rest : List EvmState) (tries : StorageTriesChanges) {result : StorageTriesChanges}
      → add_states lib dbs (earlier ++ rest) tries ≡ some result
      → (middle : StorageTriesChanges) × (add_states lib dbs rest middle ≡ some result)
  unfolding add_states
  add_states-part [] rest tries h = (tries, h)
  add_states-part (state ∷ earlier) rest tries h =
      let (middle, _, after) = >>=-eq-some (add_state lib dbs state tries) _ h in
      add_states-part earlier rest middle after

  -- The root that a session records for an account is that of the slots which the last call of the EVM
  -- that changed the account has written, wherever the account stands among the others of that call,
  -- to what was persisted before the session: the slots that earlier calls of the session have written
  -- do not count. Later calls may list the account as untouched or self-destructed.
  pub extract_storage_changes-last :
      (earlier later : List EvmState) (address : Address) (account : EvmAccount)
      (front others : EvmState) {tries : StorageTriesChanges}
      → is_unchanged account ≡ false
      → IsQuiet address others
      → AreQuiet address later
      → extract_storage_changes lib dbs
          (earlier ++ ((front ++ ((address, account) ∷ others)) ∷ later))
        ≡ some tries
      → (changes : StorageTrieChanges) × (storage_changes lib (dbs address) account ≡ some changes)
        × (recorded_root address tries ≡ some changes.root)
  unfolding extract_storage_changes add_states add_state
  extract_storage_changes-last earlier later address account front others touched quiet silent h =
      let (before, onwards) =
        add_states-part earlier ((front ++ ((address, account) ∷ others)) ∷ later) [] h in
      let (after, in_call, in_later) =
        >>=-eq-some (add_state lib dbs (front ++ ((address, account) ∷ others)) before) _ onwards in
      let (here, part) = add_state-part front ((address, account) ∷ others) before in_call in
      let (middle, added, rest) = >>=-eq-some (add_account lib dbs address account here) _ part in
      let (changes, computed, root) = add_account-root address account here touched added in
      (
        changes,
        computed,
        add_states-quiet address later after silent in_later
            ∙ add_state-quiet address others middle quiet rest
            ∙ root,
      )
