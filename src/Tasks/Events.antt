-- ===== src/Tasks/Events.antt =====
-- robot/events.py: the events of a task. A payload is a JSON object. The datetimes of the standard
-- library are a parameter; a field that has its type here needs no check of it.
use valera_control_tower.Base.{
  ℕ, Bool, Option, none, some, List, [], ◌∷◌, Text, text, is_empty, ltb, pos, Result, ok, ◌>>=◌,
  ◌>>◌, raise_if, validation_error, hardware_mode_error, if◌then◌else◌,
}
use valera_control_tower.Wire.{integer, string, array, object, Items, nil, cons, Fields, end, field}
use valera_control_tower.Tasks.Models.{
  FailureCode, failure_value, all_failures, ExecutionMode, mode_value, all_modes, is_hardware, Raw,
  require_enum,
}
use valera_control_tower.Tasks.Evidence.{EvidenceRef, evidence_to_dict}

-- What the missions use of `datetime`.
pub record Datetimes : Type 1 where
  pub Datetime : Type 0
  -- datetime(year, month, day, hour, minute, tzinfo=timezone.utc)
  pub utc : ℕ → ℕ → ℕ → ℕ → ℕ → Datetime
  pub is_naive : Datetime → Bool
  pub with_utc : Datetime → Datetime
  pub add_seconds : Datetime → ℕ → Datetime
  pub isoformat : Datetime → Text

pub data EventType : Type 0 where
  task_created task_accepted plan_created route_started route_arrived : EventType
  object_search_started camera_probe_completed camera_frame_captured : EventType
  vision_object_detected object_found object_not_found hardware_probe_completed : EventType
  grasp_started object_grasped grasp_failed delivery_started object_released : EventType
  delivery_completed task_completed task_failed : EventType

unfoldable pub event_type_value : EventType → Text
event_type_value task_created = text "task.created"
event_type_value task_accepted = text "task.accepted"
event_type_value plan_created = text "plan.created"
event_type_value route_started = text "route.started"
event_type_value route_arrived = text "route.arrived"
event_type_value object_search_started = text "object.search_started"
event_type_value camera_probe_completed = text "camera.probe.completed"
event_type_value camera_frame_captured = text "camera.frame.captured"
event_type_value vision_object_detected = text "vision.object.detected"
event_type_value object_found = text "object.found"
event_type_value object_not_found = text "object.not_found"
event_type_value hardware_probe_completed = text "hardware.probe.completed"
event_type_value grasp_started = text "grasp.started"
event_type_value object_grasped = text "object.grasped"
event_type_value grasp_failed = text "grasp.failed"
event_type_value delivery_started = text "delivery.started"
event_type_value object_released = text "object.released"
event_type_value delivery_completed = text "delivery.completed"
event_type_value task_completed = text "task.completed"
event_type_value task_failed = text "task.failed"

abbrev pub all_event_types : List EventType
all_event_types =
    task_created ∷ task_accepted ∷ plan_created ∷ route_started ∷ route_arrived
    ∷ object_search_started ∷ camera_probe_completed ∷ camera_frame_captured
    ∷ vision_object_detected ∷ object_found ∷ object_not_found ∷ hardware_probe_completed
    ∷ grasp_started ∷ object_grasped ∷ grasp_failed ∷ delivery_started ∷ object_released
    ∷ delivery_completed ∷ task_completed ∷ task_failed ∷ []

-- `SCHEMA_VERSION`
abbrev pub event_schema_version : Text
event_schema_version = text "1.0"

pub record EventError : Type 0 where
  pub code : FailureCode
  pub message : Text

-- `EventError.__post_init__`
unfoldable pub event_error : Raw FailureCode → Text → Result EventError
unfolding require_enum
event_error code message = do
  c ← require_enum failure_value all_failures code
  raise_if (is_empty message) validation_error
  ok (record { code = c; message = message })

pub record EventEnvelope (D F : Type 0) : Type 0 where
  pub event_id : Text
  pub task_id : Text
  pub correlation_id : Text
  pub sequence : ℕ
  pub event_type : EventType
  pub occurred_at : D
  pub source : Text
  pub mode : ExecutionMode
  pub payload : Fields F
  pub schema_version : Text
  pub evidence_refs : List EvidenceRef
  pub error : Option EventError

module _ {F : Type 0} (dt : Datetimes) where
  open dt use {Datetime, is_naive, with_utc, isoformat}

  -- The constructor of `EventEnvelope` with `__post_init__`.
  unfoldable pub event_envelope :
      Text
      → Text
      → Text
      → ℕ
      → Raw EventType
      → Datetime
      → Text
      → Raw ExecutionMode
      → Fields F
      → Text
      → List EvidenceRef
      → Option EventError
      → Result (EventEnvelope Datetime F)
  unfolding require_enum
  event_envelope event_id task_id correlation_id sequence event_type occurred_at source mode payload
        schema_version evidence_refs error =
      do
        raise_if (is_empty event_id) validation_error
        raise_if (is_empty task_id) validation_error
        raise_if (is_empty correlation_id) validation_error
        raise_if (is_empty source) validation_error
        raise_if (is_empty schema_version) validation_error
        raise_if (ltb sequence 1) validation_error
        t ← require_enum event_type_value all_event_types event_type
        m ← require_enum mode_value all_modes mode
        raise_if (is_hardware m) hardware_mode_error
        ok (record {
          event_id = event_id;
          task_id = task_id;
          correlation_id = correlation_id;
          sequence = sequence;
          event_type = t;
          occurred_at = if is_naive occurred_at then with_utc occurred_at else occurred_at;
          source = source;
          mode = m;
          payload = payload;
          schema_version = schema_version;
          evidence_refs = evidence_refs;
          error = error;
        })

  -- The list of `_evidence_ref_to_dict`.
  abbrev evidence_items : List EvidenceRef → Items F
  evidence_items [] = nil
  evidence_items (r ∷ rs) = cons (object (evidence_to_dict r)) (evidence_items rs)

  -- `data["error"]`, where there is an error.
  abbrev error_fields : Option EventError → Fields F
  error_fields none = end
  error_fields (some e) =
      field (text "error")
        (object (
          field (text "code") (string (failure_value e.code))
            (field (text "message") (string e.message) end)))
        end

  -- `EventEnvelope.to_dict`
  unfoldable pub event_to_dict : EventEnvelope Datetime F → Fields F
  event_to_dict e = field (text "event_id") (string e.event_id) (
      field (text "task_id") (string e.task_id) (
        field (text "correlation_id") (string e.correlation_id) (
          field (text "sequence") (integer (pos e.sequence)) (
            field (text "event_type") (string (event_type_value e.event_type)) (
              field (text "occurred_at") (string (isoformat e.occurred_at)) (
                field (text "source") (string e.source) (
                  field (text "mode") (string (mode_value e.mode)) (
                    field (text "schema_version") (string e.schema_version) (
                      field (text "payload") (object e.payload) (
                        field (text "evidence_refs") (array (evidence_items e.evidence_refs))
                          (error_fields e.error)))))))))))
