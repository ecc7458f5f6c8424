-- ===== src/Missions/Open.antt =====
-- robot/state_machine.py, as the missions use it: logs that can still take events.
use valera_control_tower.Base.{
  ℕ, ◌<◌, ◌≡◌, refl, sym, ◌∙◌, false, arith, none, List, [], ◌∷◌, ◌++◌, Text, text, text_eq_refl,
  is_empty, ok, check-ok,
}
use valera_control_tower.Missions.{numbered_id, format_03d}
use valera_control_tower.Tasks.Events.{EventType, EventEnvelope}
use valera_control_tower.Tasks.EventLog.{
  TaskEventLog, is_terminal, first_terminal, terminal_event_type, sequence_of_last, last_sequence,
  with_event, append, validate,
}
use valera_control_tower.Tasks.Log.{append-validate}

module _ {D F : Type 0} where
  abbrev pub types : List (EventEnvelope D F) → List EventType
  types [] = []
  types (e ∷ es) = e.event_type ∷ types es

  pub types-snoc :
      (es : List (EventEnvelope D F)) (e : EventEnvelope D F)
      → types (es ++ e ∷ []) ≡ types es ++ e.event_type ∷ []
  types-snoc [] e = refl
  types-snoc (f ∷ es) e = cc (types-snoc es e)

  sequence_of_last-snoc :
      (es : List (EventEnvelope D F)) (e : EventEnvelope D F)
      → sequence_of_last (es ++ e ∷ []) ≡ e.sequence
  unfolding sequence_of_last
  sequence_of_last-snoc [] e = refl
  sequence_of_last-snoc (f ∷ []) e = refl
  sequence_of_last-snoc (f ∷ g ∷ es) e = sequence_of_last-snoc (g ∷ es) e

  first_terminal-snoc :
      (es : List (EventEnvelope D F)) (e : EventEnvelope D F)
      → first_terminal es ≡ none
      → is_terminal e.event_type ≡ false
      → first_terminal (es ++ e ∷ []) ≡ none
  unfolding first_terminal
  first_terminal-snoc [] e h k = ground arith
  first_terminal-snoc (f ∷ es) e h k = ground (arith, first_terminal-snoc es e)

  -- What an append that returns has done.
  pub append-ok :
      (log log' : TaskEventLog D F) (e : EventEnvelope D F)
      → append log e ≡ ok log'
      → log' ≡ with_event log e
  unfolding append
  append-ok log log' e h = ground arith

  pub append-types :
      (log log' : TaskEventLog D F) (e : EventEnvelope D F)
      → append log e ≡ ok log'
      → types log'.events ≡ types log.events ++ e.event_type ∷ []
  append-types log log' e h = rw (append-ok log log' e h) (types-snoc log.events e)

  pub append-last_sequence :
      (log log' : TaskEventLog D F) (e : EventEnvelope D F)
      → append log e ≡ ok log'
      → last_sequence log' ≡ e.sequence
  unfolding last_sequence
  append-last_sequence log log' e h =
      rw (append-ok log log' e h) (sequence_of_last-snoc log.events e)

  -- A log of a task that validates and has no terminal event.
  pub record IsOpen (task_id : Text) (log : TaskEventLog D F) : Type 0 where
    pub same_task : log.task_id ≡ task_id
    pub validated : validate log ≡ ok tt
    pub unfinished : first_terminal log.events ≡ none

  append_lem :
      (log : TaskEventLog D F) (e : EventEnvelope D F)
      → e.task_id ≡ log.task_id
      → first_terminal log.events ≡ none
      → last_sequence log < e.sequence
      → append log e ≡ ok (with_event log e)
  unfolding append terminal_event_type
  append_lem log e same unended lt = rw (same, text_eq_refl log.task_id, unended) (ground arith)

  -- An open log takes a later event of its task, and the longer log validates.
  pub append-IsOpen :
      (task_id : Text) (log : TaskEventLog D F) (e : EventEnvelope D F)
      → IsOpen task_id log
      → e.task_id ≡ task_id
      → last_sequence log < e.sequence
      → (append log e ≡ ok (with_event log e)) × (validate (with_event log e) ≡ ok tt)
  append-IsOpen task_id log e o same lt =
      let taken = append_lem log e (same ∙ sym o.same_task) o.unfinished lt in
      (
        taken,
        check-ok (validate (with_event log e)) _ (sym (append-validate log e o.validated) ∙ taken),
      )

  -- It stays open where the event is not terminal, and the event is then its last.
  pub with_event-IsOpen :
      (task_id : Text) (log : TaskEventLog D F) (e : EventEnvelope D F)
      → IsOpen task_id log
      → e.task_id ≡ task_id
      → last_sequence log < e.sequence
      → is_terminal e.event_type ≡ false
      → IsOpen task_id (with_event log e) × (last_sequence (with_event log e) ≡ e.sequence)
  unfolding last_sequence
  with_event-IsOpen task_id log e o same lt t = (
    record {
      same_task = o.same_task;
      validated = (append-IsOpen task_id log e o same lt).1;
      unfinished = first_terminal-snoc log.events e o.unfinished t;
    },
    sequence_of_last-snoc log.events e,
  )

-- A new log is open.
pub new-IsOpen :
    {D F : Type 0} (task_id : Text)
    → IsOpen {D = D} {F = F} task_id (record { task_id = task_id; events = [] })
unfolding validate first_terminal
new-IsOpen task_id = record { same_task = refl; validated = refl; unfinished = refl }

pub is_empty-append : (s t : Text) → is_empty s ≡ false → is_empty (s ++ t) ≡ false
is_empty-append [] t h = cc
is_empty-append (a ∷ s) t h = refl

pub numbered_id-nonempty :
    (correlation : Text) (n : ℕ)
    → is_empty correlation ≡ false
    → is_empty (numbered_id correlation n) ≡ false
unfolding numbered_id
numbered_id-nonempty correlation n h =
    is_empty-append (correlation ++ text "-") (format_03d n) (is_empty-append correlation _ h)
