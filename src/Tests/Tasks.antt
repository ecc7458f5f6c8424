-- ===== src/Tests/Tasks.antt =====
-- robot/state_machine.py at concrete inputs.
use valera_control_tower.Base.{
  ℕ, ◌≡◌, refl, none, text, text_eq, [], ◌∷◌, ok, raised, validation_error, ◌>>◌,
}
use valera_control_tower.Wire.{end}
use valera_control_tower.Tasks.Models.{simulation}
use valera_control_tower.Tasks.Events.{
  EventType, task_created, task_accepted, task_failed, EventEnvelope,
}
use valera_control_tower.Tasks.EventLog.{TaskEventLog, with_event, append, validate}
use valera_control_tower.Tasks.Log.{append-validate}

abbrev pub event : ℕ → EventType → EventEnvelope ℕ ℕ
event n kind = record {
  event_id = text "e";
  task_id = text "t1";
  correlation_id = text "c";
  sequence = n;
  event_type = kind;
  occurred_at = n;
  source = text "test";
  mode = simulation;
  payload = end;
  schema_version = text "1.0";
  evidence_refs = [];
  error = none;
}

abbrev log : TaskEventLog ℕ ℕ
log = record { task_id = text "t1"; events = event 1 task_created ∷ event 3 task_failed ∷ [] }

log-validates : validate log ≡ ok tt
unfolding validate text_eq
log-validates = refl

after_terminal : append log (event 4 task_accepted) ≡ raised validation_error
unfolding append text_eq
after_terminal = refl

append-validate_example : append log (event 4 task_accepted) ≡ (
    validate (with_event log (event 4 task_accepted))
    >> ok (with_event log (event 4 task_accepted)))
append-validate_example = append-validate log (event 4 task_accepted) log-validates
