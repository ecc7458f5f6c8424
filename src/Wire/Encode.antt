-- ===== src/Wire/Encode.antt =====
-- robot/vr_gateway/wire.py: `encode_event` and `encode_events`. The fields of an event have their
-- types here, so the checks of the types always pass; `json.dumps` is a parameter.
use valera_control_tower.Base.{
  ℕ, Bool, true, false, ◌||◌, not, Option, none, some, List, [], ◌∷◌, Text, text, text_eq, is_empty,
  isspace, ltb, pos, Result, ok, raised, Exception, ◌>>=◌, ◌>>◌, raise_if, raise_from, wire_error,
  type_error, value_error, overflow_error, message_validation_error, json_decode_error,
  validation_error, hardware_mode_error,
}
use valera_control_tower.Base.Float.{FloatOps}
use valera_control_tower.Messages.{
  GatewayState, idle, awaiting_recenter, head_active, safe_stopped, RejectionCode, stale_sequence,
  stale_timestamp, session_mismatch, no_active_session, mode_blocked, unknown_mode, watchdog_active,
  invalid_payload, StopReason, watchdog, session_stopped, EventName, gateway_state, neck_target,
  safety_stop, command_rejected, GatewayStateEvent, NeckTargetEvent, SafetyStopEvent,
  CommandRejectedEvent, OutputEvent, state_event, neck_event, stop_event, rejected_event,
  schema_version_text,
}
use valera_control_tower.Wire.{
  Json, null, boolean, integer, number, string, object, end, field, max_int64,
}
use valera_control_tower.Wire.Decode.{check_int_field, check_session_id}

-- The values of the enumerations.
unfoldable pub state_value : GatewayState → Text
state_value idle = text "IDLE"
state_value awaiting_recenter = text "AWAITING_RECENTER"
state_value head_active = text "HEAD_ACTIVE"
state_value safe_stopped = text "SAFE_STOPPED"
state_value GatewayState.estop_latched = text "ESTOP_LATCHED"

unfoldable pub code_value : RejectionCode → Text
code_value stale_sequence = text "STALE_SEQUENCE"
code_value stale_timestamp = text "STALE_TIMESTAMP"
code_value session_mismatch = text "SESSION_MISMATCH"
code_value no_active_session = text "NO_ACTIVE_SESSION"
code_value mode_blocked = text "MODE_BLOCKED"
code_value unknown_mode = text "UNKNOWN_MODE"
code_value watchdog_active = text "WATCHDOG_ACTIVE"
code_value invalid_payload = text "INVALID_PAYLOAD"
code_value RejectionCode.estop_latched = text "ESTOP_LATCHED"

unfoldable pub reason_value : StopReason → Text
reason_value watchdog = text "WATCHDOG"
reason_value StopReason.emergency_stop = text "EMERGENCY_STOP"
reason_value session_stopped = text "SESSION_STOPPED"

unfoldable pub event_value : EventName → Text
event_value gateway_state = text "gateway.state"
event_value neck_target = text "neck.target"
event_value safety_stop = text "safety.stop"
event_value command_rejected = text "command.rejected"

-- `event_type is not EventName.X`
unfoldable pub is_event : EventName → EventName → Bool
is_event gateway_state gateway_state = true
is_event neck_target neck_target = true
is_event safety_stop safety_stop = true
is_event command_rejected command_rejected = true
is_event _ _ = false

-- `_validate_non_empty_non_whitespace`
unfoldable pub check_nonblank : Text → Result (Unit {0})
check_nonblank s = raise_if (is_empty s || isspace s) wire_error

-- The sequence of `_validate_correlation`.
unfoldable pub check_sequence : ℕ → Result (Unit {0})
check_sequence n = raise_if (ltb n 1 || ltb max_int64 n) wire_error

-- `_validate_correlation`
unfoldable pub validate_correlation : Option Text → Option ℕ → Bool → Result (Unit {0})
unfolding check_sequence
validate_correlation none none required = raise_if required wire_error
validate_correlation (some s) (some n) required = do _ ← check_session_id s; check_sequence n
validate_correlation _ _ required = raised wire_error

-- The three checks at the head of every encoder.
unfoldable pub check_header : ℕ → Text → EventName → EventName → Result (Unit {0})
unfolding is_event
check_header now schema name expected = do
  _ ← check_int_field 0 (pos now)
  raise_if (not (text_eq schema schema_version_text)) wire_error
  raise_if (not (is_event name expected)) wire_error

abbrev pub text_or_null : {F : Type 0} → Option Text → Json F
text_or_null none = null
text_or_null (some s) = string s

abbrev pub int_or_null : {F : Type 0} → Option ℕ → Json F
int_or_null none = null
int_or_null (some n) = integer (pos n)

-- `_encode_gateway_state_event`
unfoldable pub encode_gateway_state_event : {F : Type 0} → GatewayStateEvent → Result (Json F)
encode_gateway_state_event e = do
  check_header e.gateway_monotonic_ns e.schema_version e.event_type gateway_state
  validate_correlation e.session_id e.sequence false
  ok (
      object (
        field (text "schema_version") (string (text "0.1")) (
          field (text "event_type") (string (event_value gateway_state)) (
            field (text "gateway_monotonic_ns") (integer (pos e.gateway_monotonic_ns)) (
              field (text "state") (string (state_value e.state)) (
                field (text "session_id") (text_or_null e.session_id)
                  (field (text "sequence") (int_or_null e.sequence) end)))))))

-- `_encode_safety_stop_event`
unfoldable pub encode_safety_stop_event : {F : Type 0} → SafetyStopEvent → Result (Json F)
encode_safety_stop_event e = do
  check_header e.gateway_monotonic_ns e.schema_version e.event_type safety_stop
  validate_correlation e.session_id e.sequence false
  check_nonblank e.neck_action
  check_nonblank e.base_action
  check_nonblank e.arm_action
  ok (
      object (
        field (text "schema_version") (string (text "0.1")) (
          field (text "event_type") (string (event_value safety_stop)) (
            field (text "gateway_monotonic_ns") (integer (pos e.gateway_monotonic_ns)) (
              field (text "reason") (string (reason_value e.reason)) (
                field (text "session_id") (text_or_null e.session_id) (
                  field (text "sequence") (int_or_null e.sequence) (
                    field (text "neck_action") (string e.neck_action) (
                      field (text "base_action") (string e.base_action)
                        (field (text "arm_action") (string e.arm_action) end))))))))))

-- `_encode_command_rejected_event`
unfoldable pub encode_command_rejected_event : {F : Type 0} → CommandRejectedEvent → Result (Json F)
encode_command_rejected_event e = do
  check_header e.gateway_monotonic_ns e.schema_version e.event_type command_rejected
  check_nonblank e.message
  validate_correlation e.session_id e.sequence false
  ok (
      object (
        field (text "schema_version") (string (text "0.1")) (
          field (text "event_type") (string (event_value command_rejected)) (
            field (text "gateway_monotonic_ns") (integer (pos e.gateway_monotonic_ns)) (
              field (text "code") (string (code_value e.code)) (
                field (text "message") (string e.message) (
                  field (text "session_id") (text_or_null e.session_id)
                    (field (text "sequence") (int_or_null e.sequence) end))))))))

-- `except (TypeError, ValueError, OverflowError)`, the subclasses of ValueError included.
abbrev is_serialization_failure : Exception → Bool
is_serialization_failure type_error = true
is_serialization_failure value_error = true
is_serialization_failure overflow_error = true
is_serialization_failure message_validation_error = true
is_serialization_failure json_decode_error = true
is_serialization_failure wire_error = true
is_serialization_failure validation_error = true
is_serialization_failure hardware_mode_error = true
is_serialization_failure _ = false

module _ (fl : FloatOps) where
  open fl use {F, isfinite}

  -- `_encode_neck_target_event`
  unfoldable pub encode_neck_target_event : NeckTargetEvent F → Result (Json F)
  encode_neck_target_event e = do
    check_header e.gateway_monotonic_ns e.schema_version e.event_type neck_target
    validate_correlation (some e.session_id) (some e.sequence) true
    raise_if (not (isfinite e.pan_degrees) || not (isfinite e.tilt_degrees)) wire_error
    ok (
        object (
          field (text "schema_version") (string (text "0.1")) (
            field (text "event_type") (string (event_value neck_target)) (
              field (text "gateway_monotonic_ns") (integer (pos e.gateway_monotonic_ns)) (
                field (text "session_id") (string e.session_id) (
                  field (text "sequence") (integer (pos e.sequence)) (
                    field (text "pan_degrees") (number e.pan_degrees) (
                      field (text "tilt_degrees") (number e.tilt_degrees)
                        (field (text "hold") (boolean e.hold) end)))))))))

  -- `_event_to_validated_dict`
  unfoldable pub event_to_validated_dict : OutputEvent F → Result (Json F)
  event_to_validated_dict (state_event e) = encode_gateway_state_event e
  event_to_validated_dict (neck_event e) = encode_neck_target_event e
  event_to_validated_dict (stop_event e) = encode_safety_stop_event e
  event_to_validated_dict (rejected_event e) = encode_command_rejected_event e

  abbrev pub Dumps : Type 0
  Dumps = Json F → Result Text

  -- `encode_event`
  unfoldable pub encode_event : Dumps → OutputEvent F → Result Text
  encode_event dumps e = do
    document ← event_to_validated_dict e
    raise_from is_serialization_failure wire_error (dumps document)

  -- `encode_events`
  unfoldable pub encode_events : Dumps → List (OutputEvent F) → Result (List Text)
  encode_events dumps [] = ok []
  encode_events dumps (e ∷ es) = do
    line ← encode_event dumps e
    lines ← encode_events dumps es
    ok (line ∷ lines)
