-- ===== src/Tasks/Log.antt =====
-- robot/state_machine.py: the two checks of a log, `append` and `validate`, agree.
use valera_control_tower.Base.{
  ℕ, ◌≡◌, refl, Bool, false, ◌||◌, not, arith, List, [], ◌∷◌, ◌++◌, Text, text_eq, leb, ok, ◌>>◌,
  raise_if, validation_error,
}
use valera_control_tower.Tasks.Events.{EventEnvelope}
use valera_control_tower.Tasks.EventLog.{
  TaskEventLog, is_terminal, first_terminal, terminal_event_type, sequence_of_last, last_sequence,
  is_some, with_event, append, validate_events, validate,
}

module _ {D F : Type 0} where
  -- The last sequence of a suffix, where the loop had `last` before it.
  abbrev from_last : ℕ → List (EventEnvelope D F) → ℕ
  from_last last [] = last
  from_last last (e ∷ es) = from_last e.sequence es

  from_last-sequence_of_last :
      (e : EventEnvelope D F) (es : List (EventEnvelope D F))
      → from_last e.sequence es ≡ sequence_of_last (e ∷ es)
  unfolding sequence_of_last
  from_last-sequence_of_last e [] = refl
  from_last-sequence_of_last e (f ∷ es) = from_last-sequence_of_last f es

  from_last_zero : (es : List (EventEnvelope D F)) → from_last 0 es ≡ sequence_of_last es
  unfolding sequence_of_last
  from_last_zero [] = refl
  from_last_zero (e ∷ es) = from_last-sequence_of_last e es

  -- One more event goes through the loop after the others exactly if it passes the three tests.
  validate_events-snoc :
      (task : Text) (seen : Bool) (last : ℕ) (es : List (EventEnvelope D F)) (e : EventEnvelope D F)
      → validate_events task seen last es ≡ ok tt
      → validate_events task seen last (es ++ e ∷ []) ≡ (
          raise_if (not (text_eq e.task_id task)) validation_error
          >> raise_if (leb e.sequence (from_last last es)) validation_error
          >> raise_if (seen || is_some (first_terminal es)) validation_error)
  unfolding validate_events first_terminal is_terminal
  validate_events-snoc task seen last [] e h = ground arith
  validate_events-snoc task seen last (f ∷ es) e h =
      ground (arith, validate_events-snoc task (seen || is_terminal f.event_type) f.sequence es e)

  -- On a log that validates, appending an event and validating the longer log give the same: the
  -- event is taken, and the longer log validates, or ValidationError is raised.
  pub append-validate :
      (log : TaskEventLog D F) (e : EventEnvelope D F)
      → validate log ≡ ok tt
      → append log e ≡ (validate (with_event log e) >> ok (with_event log e))
  unfolding append validate terminal_event_type last_sequence
  append-validate log e h =
      rw (validate_events-snoc log.task_id false 0 log.events e h, from_last_zero log.events)
        (ground arith)
