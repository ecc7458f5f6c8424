-- ===== src/Missions/Physical.antt =====
-- robot/physical_demo.py: the demo with live vision and an operator who confirms each step. The
-- probe of the camera and the provider of the confirmations are arguments, as in the source; the
-- provider hands its own state `S` on.
use valera_control_tower.Base.{
  ℕ, ◌+◌, ◌-◌, Bool, true, false, not, Option, none, some, List, [], ◌∷◌, ◌++◌, Text, text,
  is_empty, Result, ok, ◌>>=◌, ◌>>◌, raise_if, live_camera_disabled_error, ℤ, if◌then◌else◌,
}
use valera_control_tower.Wire.{string, Fields, end, field}
use valera_control_tower.Tasks.Models.{
  Task, make_task, pickup_zone, delivery_zone, base, zone_value, real_vision, member_value,
  FailureCode, object_not_found, invalid_task, manual_cancelled,
}
use valera_control_tower.Tasks.Events.{
  Datetimes, EventType, task_created, task_accepted, plan_created, route_started, route_arrived,
  object_search_started, object_found, grasp_started, object_grasped, delivery_started,
  object_released, delivery_completed, task_completed, task_failed, EventEnvelope, event_envelope,
  event_error, event_schema_version, event_type_value,
}
use valera_control_tower.Tasks.EventLog.{TaskEventLog, append, validate, last_sequence}
use valera_control_tower.Missions.{numbered_id, merge, base_payload, with_status, planned_route}

-- `PHYSICAL_DEMO_SOURCE`
abbrev pub physical_demo_source : Text
physical_demo_source = text "valera.physical_demo"

-- `PHYSICAL_DEMO_SUCCESS_EVENT_SEQUENCE`
abbrev pub physical_demo_success_event_sequence : List EventType
physical_demo_success_event_sequence =
    task_created ∷ task_accepted ∷ plan_created ∷ route_started ∷ route_arrived
    ∷ object_search_started ∷ object_found ∷ grasp_started ∷ object_grasped ∷ delivery_started
    ∷ object_released ∷ delivery_completed ∷ task_completed ∷ []

-- The events in front of the probe.
abbrev pub opening_event_types : List EventType
opening_event_types =
    task_created ∷ task_accepted ∷ plan_created ∷ route_started ∷ route_arrived
    ∷ object_search_started ∷ []

pub record OperatorConfirmation : Type 0 where
  pub step_name : Text
  pub prompt : Text
  pub event_type : EventType

-- `_operator_confirmations`
abbrev pub operator_confirmations : List OperatorConfirmation
operator_confirmations =
    record {
      step_name = text "confirm_grasp_started";
      prompt = text "Confirm the operator has started the physical grasp step.";
      event_type = grasp_started;
    }
    ∷ record {
      step_name = text "confirm_object_grasped";
      prompt = text "Confirm the object is physically grasped or secured.";
      event_type = object_grasped;
    }
    ∷ record {
      step_name = text "confirm_delivery_started";
      prompt = text "Confirm the operator has started the delivery step.";
      event_type = delivery_started;
    }
    ∷ record {
      step_name = text "confirm_object_released";
      prompt = text "Confirm the object has been physically released.";
      event_type = object_released;
    }
    ∷ record {
      step_name = text "confirm_delivery_completed";
      prompt = text "Confirm the physical delivery step is complete.";
      event_type = delivery_completed;
    }
    ∷ []

-- `_confirm` of a provider: what it answers to a step's name and prompt. A provider that raises,
-- which ends the run with its exception, is not modelled.
abbrev pub Provider : Type 0 → Type 0
Provider S = S → Text → Text → S × Bool

-- `ListConfirmationProvider.confirm`
unfoldable pub list_confirm : Provider (List Bool)
list_confirm [] step_name prompt = ([], false)
list_confirm (answer ∷ answers) step_name prompt = (answers, answer)

abbrev positioning : {F : Type 0} → Task → Text → Fields F
positioning task status = merge (base_payload task) (
    field (text "from_zone") (string (zone_value base)) (
      field (text "to_zone") (string (zone_value task.pickup_zone)) (
        field (text "status") (string status)
          (field (text "note") (string (text "operator_confirmed / simulated positioning")) end))))

abbrev confirmed : {F : Type 0} → Task → Text → Fields F
confirmed task status = merge (base_payload task) (
    field (text "status") (string status)
      (field (text "confirmation") (string (text "operator")) end))

-- `_payload_for_event`
unfoldable pub physical_payload : {F : Type 0} → Task → EventType → Fields F
physical_payload task task_created = merge (base_payload task) (
    field (text "status") (string (text "created"))
      (field (text "description") (string task.description) end))
physical_payload task task_accepted = with_status task (text "accepted")
physical_payload task plan_created = merge (base_payload task) (
    field (text "status") (string (text "planned")) (
      field (text "planned_route") (planned_route task) (
        field (text "note") (string (text "physical demo uses operator-confirmed positioning"))
          end)))
physical_payload task route_started = positioning task (text "started")
physical_payload task route_arrived = positioning task (text "arrived")
physical_payload task object_search_started = with_status task (text "searching")
physical_payload task grasp_started = confirmed task (text "started")
physical_payload task object_grasped = confirmed task (text "grasped")
physical_payload task delivery_started = confirmed task (text "started")
physical_payload task object_released = confirmed task (text "released")
physical_payload task delivery_completed = confirmed task (text "completed")
physical_payload task task_completed =
    field (text "object_id") (string task.object_id)
      (field (text "status") (string (text "completed")) end)
physical_payload task t = with_status task (event_type_value t)

-- `correlation_id or ...`, and `run_started_at or ...`
abbrev pub or_text : Option Text → Text → Text
or_text none s = s
or_text (some t) s = if is_empty t then s else t

abbrev pub or_time : {D : Type 0} → Option D → D → D
or_time none d = d
or_time (some e) d = e

module _ (F : Type 0) (dt : Datetimes) where
  open dt use {Datetime, is_naive, with_utc, add_seconds}

  abbrev pub Log : Type 0
  Log = TaskEventLog Datetime F

  -- `_occurred_at`
  unfoldable pub occurred_at : Datetime → ℕ → Datetime
  occurred_at timestamp_base sequence =
      add_seconds (if is_naive timestamp_base then with_utc timestamp_base else timestamp_base)
        (sequence - 1)

  -- `_event`
  unfoldable pub physical_event :
      Task → EventType → Text → ℕ → Datetime → Result (EventEnvelope Datetime F)
  physical_event task event_type correlation_id sequence timestamp_base =
      event_envelope dt (numbered_id correlation_id sequence) task.task_id correlation_id sequence
        (member_value event_type) (occurred_at timestamp_base sequence) physical_demo_source
        (member_value real_vision) (physical_payload task event_type) event_schema_version [] none

  -- `_failed_event`
  unfoldable pub failed_event :
      Task → Text → ℕ → Datetime → Text → FailureCode → Result (EventEnvelope Datetime F)
  failed_event task correlation_id sequence timestamp_base reason code = do
    error ← event_error (member_value code) reason
    event_envelope dt (numbered_id correlation_id sequence) task.task_id correlation_id sequence
        (member_value task_failed) (occurred_at timestamp_base sequence) physical_demo_source
        (member_value real_vision)
        (field (text "object_id") (string task.object_id) (
          field (text "status") (string (text "failed"))
            (field (text "reason") (string reason) end)))
        event_schema_version [] (some error)

  -- `event_log.append(_event(..., event_log.last_sequence + 1, ...))`
  unfoldable pub append_step : Task → Text → Datetime → EventType → Log → Result Log
  append_step task correlation timestamp_base event_type log = do
    event ← physical_event task event_type correlation (last_sequence log + 1) timestamp_base
    append log event

  -- The failing end of a run: the failed event, the validation and the log.
  unfoldable pub finish_failed : Task → Text → Datetime → Text → FailureCode → Log → Result Log
  finish_failed task correlation timestamp_base reason code log = do
    event ← failed_event task correlation (last_sequence log + 1) timestamp_base reason code
    log' ← append log event
    validate log'
    ok log'

  -- The loop over the opening events.
  unfoldable pub append_steps : Task → Text → Datetime → List EventType → Log → Result Log
  append_steps task correlation timestamp_base [] log = ok log
  append_steps task correlation timestamp_base (t ∷ ts) log = do
    log' ← append_step task correlation timestamp_base t log
    append_steps task correlation timestamp_base ts log'

  -- The completed end of a run.
  unfoldable pub finish_completed : Task → Text → Datetime → Log → Result Log
  finish_completed task correlation timestamp_base log = do
    log' ← append_step task correlation timestamp_base task_completed log
    validate log'
    ok log'

  -- The loop over the confirmations, and the end of the run behind it.
  unfoldable pub confirm_steps :
      {S : Type 0}
      → Provider S
      → Task
      → Text
      → Datetime
      → List OperatorConfirmation
      → S
      → Log
      → Result Log
  confirm_steps provider task correlation timestamp_base [] s log =
      finish_completed task correlation timestamp_base log
  confirm_steps provider task correlation timestamp_base (c ∷ cs) s log =
      let (s', answer) = provider s c.step_name c.prompt in
      elim answer [
        | false ↦
            finish_failed task correlation timestamp_base
              (text "operator cancelled during " ++ c.step_name) manual_cancelled log
        | true ↦ append_step task correlation timestamp_base c.event_type log >>= λ log'.
            confirm_steps provider task correlation timestamp_base cs s' log'
      ]

  -- What a run does with the event of the probe, once it is in the log.
  unfoldable pub after_probe :
      {S : Type 0} → Provider S → Task → Text → Datetime → S → EventType → Log → Result Log
  after_probe provider task correlation timestamp_base s EventType.object_not_found log =
      finish_failed task correlation timestamp_base
        (text "live camera did not find the target object") object_not_found log
  after_probe provider task correlation timestamp_base s object_found log =
      confirm_steps provider task correlation timestamp_base operator_confirmations s log
  after_probe provider task correlation timestamp_base s t log =
      finish_failed task correlation timestamp_base
        (text "live camera returned unexpected event type: " ++ event_type_value t) invalid_task log

  -- The arguments of `live_probe_runner`: task id, object id, camera index, enabled, output root,
  -- sequence, correlation id, time.
  abbrev pub ProbeRunner : Type 0
  ProbeRunner =
      Text → Text → ℤ → Bool → Text → ℕ → Text → Datetime → Result (EventEnvelope Datetime F)

  -- The task of the demo.
  unfoldable pub physical_task : Text → Text → Result Task
  physical_task task_id object_id =
      make_task task_id object_id (member_value pickup_zone) (member_value delivery_zone)
        (member_value real_vision)
        (text
          "Physical demo with live vision and operator-confirmed manipulation; no robot movement or arm control")

  -- `run_physical_demo` from the empty log on.
  unfoldable pub mission :
      {S : Type 0} → Task → ℤ → Text → Provider S → S → Text → Datetime → ProbeRunner → Result Log
  mission task camera_index output_root provider s correlation timestamp_base probe = do
    log ←
        append_steps task correlation timestamp_base opening_event_types
          (record { task_id = task.task_id; events = [] })
    detection ←
        probe task.task_id task.object_id camera_index true output_root (last_sequence log + 1)
          correlation (occurred_at timestamp_base (last_sequence log + 1))
    log' ← append log detection
    after_probe provider task correlation timestamp_base s detection.event_type log'

  -- `run_physical_demo`, with the time of `datetime.now`.
  unfoldable pub run_physical_demo :
      {S : Type 0}
      → Text
      → Text
      → ℤ
      → Bool
      → Text
      → Provider S
      → S
      → Option Text
      → Option Datetime
      → Datetime
      → ProbeRunner
      → Result Log
  unfolding mission
  run_physical_demo task_id object_id camera_index enable_live_camera output_root provider s
        correlation_id run_started_at now probe =
      do
        raise_if (not enable_live_camera) live_camera_disabled_error
        task ← physical_task task_id object_id
        mission task camera_index output_root provider s
            (or_text correlation_id (task.task_id ++ text "-physical-demo"))
            (or_time run_started_at now) probe
