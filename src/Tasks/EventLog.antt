-- ===== src/Tasks/EventLog.antt =====
-- robot/state_machine.py: the event log of a task.
use valera_control_tower.Base.{
  ℕ, Bool, true, false, ◌||◌, not, Option, none, some, List, [], ◌∷◌, ◌++◌, Text, text_eq, leb,
  if◌then◌else◌, Result, ok, ◌>>◌, raise_if, validation_error,
}
use valera_control_tower.Tasks.Events.{EventType, task_completed, task_failed, EventEnvelope}

-- `event_type in TERMINAL_EVENT_TYPES`
unfoldable pub is_terminal : EventType → Bool
is_terminal task_completed = true
is_terminal task_failed = true
is_terminal _ = false

abbrev pub is_some : Option EventType → Bool
is_some none = false
is_some (some t) = true

pub record TaskEventLog (D F : Type 0) : Type 0 where
  pub task_id : Text
  pub events : List (EventEnvelope D F)

module _ {D F : Type 0} where
  unfoldable pub first_terminal : List (EventEnvelope D F) → Option EventType
  unfolding is_terminal
  first_terminal [] = none
  first_terminal (e ∷ es) =
      let rest = first_terminal es in if is_terminal e.event_type then some e.event_type else rest

  -- `terminal_event_type`
  unfoldable pub terminal_event_type : TaskEventLog D F → Option EventType
  unfolding first_terminal
  terminal_event_type log = first_terminal log.events

  unfoldable pub sequence_of_last : List (EventEnvelope D F) → ℕ
  sequence_of_last [] = 0
  sequence_of_last (e ∷ []) = e.sequence
  sequence_of_last (e ∷ f ∷ es) = sequence_of_last (f ∷ es)

  -- `last_sequence`
  unfoldable pub last_sequence : TaskEventLog D F → ℕ
  unfolding sequence_of_last
  last_sequence log = sequence_of_last log.events

  -- The log with one more event, unchecked.
  abbrev pub with_event : TaskEventLog D F → EventEnvelope D F → TaskEventLog D F
  with_event log event = record { task_id = log.task_id; events = log.events ++ event ∷ [] }

  -- `TaskEventLog.append`
  unfoldable pub append : TaskEventLog D F → EventEnvelope D F → Result (TaskEventLog D F)
  unfolding terminal_event_type last_sequence
  append log event = do
    raise_if (not (text_eq event.task_id log.task_id)) validation_error
    raise_if (is_some (terminal_event_type log)) validation_error
    raise_if (leb event.sequence (last_sequence log)) validation_error
    ok (with_event log event)

  -- The loop of `validate`, with `seen_terminal` and `last_sequence`.
  unfoldable pub validate_events : Text → Bool → ℕ → List (EventEnvelope D F) → Result (Unit {0})
  unfolding is_terminal
  validate_events task seen last [] = ok tt
  validate_events task seen last (e ∷ es) = do
    raise_if (not (text_eq e.task_id task)) validation_error
    raise_if (leb e.sequence last) validation_error
    raise_if seen validation_error
    validate_events task (seen || is_terminal e.event_type) e.sequence es

  -- `TaskEventLog.validate`
  unfoldable pub validate : TaskEventLog D F → Result (Unit {0})
  unfolding validate_events
  validate log = validate_events log.task_id false 0 log.events
