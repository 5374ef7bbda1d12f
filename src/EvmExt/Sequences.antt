-- ===== src/EvmExt/Sequences.antt =====
-- The logs of a sequence of events are the logs of the single events, one after the other.
use mathlib.Core.List.{append-nil, append_assoc}
use op_move.Base.{
  ◌≡◌, refl, ◌∙◌, sym, ap, Bool-cases, inl, inr, List, [], ◌∷◌, ◌++◌, Option, none, some, B256,
  Bytes,
}
use op_move.Base.Partial.{◌>>=◌}
use op_move.MoveTypes.{TypeTag, MoveValue, MoveValues}
use op_move.Transaction.Types.{Log}
use op_move.EvmExt.Results.{log_of_fields}
use op_move.EvmExt.Events.{
  add_logs, evm_logs_event_to_log, is_evm_logs_event, ContractEvent, push_typed, push_logs,
  push_all_logs, logs_of_events,
}

abbrev after : List Log → Option (List Log) → Option (List Log)
after dest none = none
after dest (some logs) = some (dest ++ logs)

after-after :
    (dest middle : List Log) (o : Option (List Log))
    → after dest (after middle o) ≡ after (dest ++ middle) o
after-after dest middle none = refl
after-after dest middle (some logs) = ap some (sym (append_assoc dest middle logs))

-- A step that adds one log, then goes on.
one_more :
    (dest : List Log) (o : Option Log) (f : List Log → Option (List Log))
    → ((before : List Log) → f before ≡ after before (f []))
    → (do log ← o; f (dest ++ (log ∷ []))) ≡ after dest (do log ← o; f (log ∷ []))
one_more dest none f h = refl
one_more dest (some log) f h =
    h (dest ++ (log ∷ []))
    ∙ sym (ap (after dest) (h (log ∷ [])) ∙ after-after dest (log ∷ []) (f []))

add_logs-after :
    (values : MoveValues) (dest : List Log) → add_logs values dest ≡ after dest (add_logs values [])
unfolding add_logs
add_logs-after MoveValues.nil dest = ap some (sym (append-nil dest))
add_logs-after
      (MoveValues.cons
        (MoveValue.struct
          (MoveValues.cons a (MoveValues.cons b (MoveValues.cons c MoveValues.nil))))
        values)
      dest =
    one_more dest
      (log_of_fields (MoveValues.cons a (MoveValues.cons b (MoveValues.cons c MoveValues.nil))))
      (add_logs values) (add_logs-after values)
add_logs-after (MoveValues.cons _ values) dest = refl

evm_logs_event_to_log-after :
    (value : MoveValue) (dest : List Log)
    → evm_logs_event_to_log value dest ≡ after dest (evm_logs_event_to_log value [])
unfolding evm_logs_event_to_log
evm_logs_event_to_log-after
      (MoveValue.struct (MoveValues.cons (MoveValue.vector logs) MoveValues.nil)) dest =
    add_logs-after logs dest
evm_logs_event_to_log-after _ dest = refl

module _ (name_hash : TypeTag → B256) (deserialize : Bytes → Option MoveValue) where
  special :
      (o : Option MoveValue) (dest : List Log)
      → (do value ← o; evm_logs_event_to_log value dest)
        ≡ after dest (do value ← o; evm_logs_event_to_log value [])
  special none dest = refl
  special (some value) dest = evm_logs_event_to_log-after value dest

  push_typed-after :
      (tag : TypeTag) (bytes : Bytes) (dest : List Log)
      → push_typed name_hash deserialize tag bytes dest
        ≡ after dest (push_typed name_hash deserialize tag bytes [])
  unfolding push_typed
  push_typed-after (TypeTag.struct a m n args) bytes dest =
      elim (Bool-cases (is_evm_logs_event a m n args)) [
        | inl e ↦ rw e (special (deserialize bytes) dest)
        | inr e ↦ rw e
      ]
  push_typed-after _ bytes dest = refl

  push_logs-after :
      (event : ContractEvent) (dest : List Log)
      → push_logs name_hash deserialize event dest
        ≡ after dest (push_logs name_hash deserialize event [])
  unfolding push_logs
  push_logs-after event dest = push_typed-after event.type_tag event.event_data dest

  bound_after :
      (dest : List Log) (o : Option (List Log)) (f : List Log → Option (List Log))
      → ((before : List Log) → f before ≡ after before (f []))
      → (do logs ← after dest o; f logs) ≡ after dest (do logs ← o; f logs)
  bound_after dest none f h = refl
  bound_after dest (some logs) f h =
      h (dest ++ logs) ∙ sym (ap (after dest) (h logs) ∙ after-after dest logs (f []))

  push_all_logs-after :
      (events : List ContractEvent) (dest : List Log)
      → push_all_logs name_hash deserialize events dest
        ≡ after dest (push_all_logs name_hash deserialize events [])
  unfolding push_all_logs
  push_all_logs-after [] dest = ap some (sym (append-nil dest))
  push_all_logs-after (event ∷ events) dest = rw (push_logs-after event dest) (
      bound_after dest (push_logs name_hash deserialize event [])
        (push_all_logs name_hash deserialize events) (push_all_logs-after events))

  then_after :
      (o : Option (List Log)) (f g h : List Log → Option (List Log))
      → ((logs : List Log) → f logs ≡ (do more ← g logs; h more))
      → (do logs ← o; f logs) ≡ (do more ← (do logs ← o; g logs); h more)
  then_after none f g h e = refl
  then_after (some logs) f g h e = e logs

  push_all_logs-append :
      (events later : List ContractEvent) (dest : List Log)
      → push_all_logs name_hash deserialize (events ++ later) dest ≡ (do
        logs ← push_all_logs name_hash deserialize events dest
        push_all_logs name_hash deserialize later logs)
  unfolding push_all_logs
  push_all_logs-append [] later dest = refl
  push_all_logs-append (event ∷ events) later dest =
      then_after (push_logs name_hash deserialize event dest) _ _ _
        (λ logs. push_all_logs-append events later logs)

  after-eq :
      (dest : List Log) (o : Option (List Log)) → after dest o ≡ (do more ← o; some (dest ++ more))
  after-eq dest none = refl
  after-eq dest (some more) = refl

  joined :
      (o : Option (List Log)) (f : List Log → Option (List Log))
      → ((logs : List Log) → f logs ≡ after logs (f []))
      → (do logs ← o; f logs) ≡ (do logs ← o; more ← f []; some (logs ++ more))
  joined none f h = refl
  joined (some logs) f h = h logs ∙ after-eq logs (f [])

  -- The logs of two sequences of events, one after the other, are the logs of the first followed by
  -- those of the second, and there are none where an event of either cannot be read.
  pub logs_of_events-append :
      (events later : List ContractEvent)
      → logs_of_events name_hash deserialize (events ++ later) ≡ (do
        logs ← logs_of_events name_hash deserialize events
        more ← logs_of_events name_hash deserialize later
        some (logs ++ more))
  unfolding logs_of_events
  logs_of_events-append events later =
      push_all_logs-append events later []
      ∙ joined (push_all_logs name_hash deserialize events [])
          (push_all_logs name_hash deserialize later) (push_all_logs-after later)
