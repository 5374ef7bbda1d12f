-- ===== src/EvmExt/RoundTrip.antt =====
-- What the EVM native returns is read back as it was.
use op_move.Base.{ℕ, ◌^◌, ◌<◌, ◌≤◌, ◌≡◌, refl, List, [], ◌∷◌, some, B256, Bytes, arith, length}
use native.Mathlib.Nat.{mod-eq_of_lt}
use op_move.Primitives.{to_eth_address}
use op_move.Transaction.Types.{Log}
use op_move.Tags.{u8_entries}
use op_move.EvmExt.Words.{word_of_move-word_to_move}
use op_move.EvmExt.Results.{vector_u8, vector_u256, u256_entries, new_log, with_entries}

-- A log as the EVM makes it: an address of 160 bits, topics of 256 bits, four of them at most.
pub data AreWords : List B256 → Type 0 where
  none_left : AreWords []
  word : {x : B256} {xs : List B256} → x < 2 ^ 256 → AreWords xs → AreWords (x ∷ xs)

pub record IsEvmLog (log : Log) : Type 0 where
  pub address-lt : log.address < 2 ^ 160
  pub topics-AreWords : AreWords log.topics
  pub topics-le : length log.topics ≤ 4

pub data AreEvmLogs : List Log → Type 0 where
  none_left : AreEvmLogs []
  evm_log : {log : Log} {logs : List Log} → IsEvmLog log → AreEvmLogs logs → AreEvmLogs (log ∷ logs)

u8_entries-vector_u8 : (bs : Bytes) → u8_entries (vector_u8 bs) ≡ some bs
u8_entries-vector_u8 [] = refl
u8_entries-vector_u8 (b ∷ bs) = rw (u8_entries-vector_u8 bs)

u256_entries-vector_u256 : (xs : List B256) → AreWords xs → u256_entries (vector_u256 xs) ≡ some xs
unfolding u256_entries vector_u256
u256_entries-vector_u256 [] h = refl
u256_entries-vector_u256 (x ∷ xs) (word lt h) =
    rw (u256_entries-vector_u256 xs h, word_of_move-word_to_move x lt)

new_log-few :
    (address : ℕ) (topics : List B256) (bytes : Bytes)
    → length topics ≤ 4
    → new_log address topics bytes
      ≡ some (record { address = to_eth_address address; topics = topics; payload = bytes })
new_log-few address [] bytes h = refl
new_log-few address (a ∷ []) bytes h = refl
new_log-few address (a ∷ b ∷ []) bytes h = refl
new_log-few address (a ∷ b ∷ c ∷ []) bytes h = refl
new_log-few address (a ∷ b ∷ c ∷ d ∷ []) bytes h = refl
new_log-few address (a ∷ b ∷ c ∷ d ∷ e ∷ rest) bytes h = ground arith

pub log-back :
    (log : Log)
    → IsEvmLog log
    → with_entries log.address
        (u256_entries (vector_u256 log.topics))
        (u8_entries (vector_u8 log.payload))
      ≡ some log
log-back log good = rw (
  u256_entries-vector_u256 log.topics good.topics-AreWords,
  u8_entries-vector_u8 log.payload,
  new_log-few log.address log.topics log.payload good.topics-le,
  mod-eq_of_lt good.address-lt,
)
