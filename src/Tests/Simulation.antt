-- ===== src/Tests/Simulation.antt =====
-- robot/vr_gateway/simulation.py over whole numbers, where 0.08 and 0.1 are rounded down.
use valera_control_tower.Base.{
  ℕ, ◌≡◌, refl, Option, some, List, [], ◌∷◌, Text, text, text_eq, member, ℤ, pos, Result, ok,
  raised, isspace, is_space_code, strips_to_empty, ltb, if◌then◌else◌,
}
use valera_control_tower.Messages.{head_active, OutputEvent, state_event}
use valera_control_tower.Messages.Validation.{validate_command_envelope, normalized, quaternion}
use valera_control_tower.Neck.{
  check_config, neck_controller, identity_quaternion, update, elapsed_seconds,
  relative_angles_degrees, filter_alpha, move_target, recenter,
}
use valera_control_tower.Gateway.{
  vr_gateway, poll, evaluate_deadline, handshake_expired, watchdog_expired, end_handshake,
  stop_motion, gateway_state_event,
}
use valera_control_tower.Gateway.Handlers.{
  handle_session_start, start_session, start_rejection, rejection_of, handle_recenter, recenter_to,
  handle_pose, pose_to,
}
use valera_control_tower.Gateway.Handle.{handle, handle_valid, after_deadline, route, perform}
use valera_control_tower.Gateway.Simulation.{
  event_to_dictionary, run_simulated_head_sequence, build_simulated_vr_gateway, made_and_handled,
}
use valera_control_tower.Gateway.Dictionary.{
  SameEntries, event_to_validated_dict-event_to_dictionary,
}
use valera_control_tower.OutputCheck.{get}
use valera_control_tower.Wire.{Json, string, integer, object, Fields, end, field}
use valera_control_tower.Wire.Encode.{
  event_to_validated_dict, encode_gateway_state_event, check_header, is_event, validate_correlation,
  check_sequence, state_value, event_value,
}
use valera_control_tower.Wire.Decode.{check_int_field, check_session_id}
use valera_control_tower.Tests.Floats.{whole}

abbrev rounded : ℤ → ℕ → ℤ
rounded n places = if ltb 0 places then pos 0 else n

abbrev types : List (Fields ℤ) → List (Option (Json ℤ))
types [] = []
types (d ∷ ds) = get (text "event_type") d ∷ types ds

abbrev types_of : Result (List (Fields ℤ)) → List (Option (Json ℤ))
types_of (ok ds) = types ds
types_of (raised e) = []

abbrev name : Text → Option (Json ℤ)
name s = some (string s)

simulated :
    types_of (run_simulated_head_sequence whole rounded)
    ≡ name (text "gateway.state")
      ∷ name (text "gateway.state")
      ∷ name (text "neck.target")
      ∷ name (text "gateway.state")
      ∷ name (text "safety.stop")
      ∷ []
unfolding run_simulated_head_sequence build_simulated_vr_gateway made_and_handled poll
    event_to_dictionary handle handle_valid after_deadline route perform handle_session_start
    start_session start_rejection rejection_of handle_recenter recenter_to handle_pose pose_to
    evaluate_deadline handshake_expired watchdog_expired end_handshake stop_motion
    validate_command_envelope normalized quaternion check_config neck_controller identity_quaternion
    update elapsed_seconds relative_angles_degrees filter_alpha move_target recenter vr_gateway
    text_eq member get event_value
simulated = refl

abbrev activated : OutputEvent ℤ
activated = state_event (gateway_state_event 5 head_active (some (text "s")) (some 2))

abbrev activated_json : Json ℤ
activated_json = object (
    field (text "schema_version") (string (text "0.1")) (
      field (text "event_type") (string (text "gateway.state")) (
        field (text "gateway_monotonic_ns") (integer (pos 5)) (
          field (text "state") (string (text "HEAD_ACTIVE")) (
            field (text "session_id") (string (text "s"))
              (field (text "sequence") (integer (pos 2)) end))))))

activated-encoded : event_to_validated_dict whole activated ≡ ok activated_json
unfolding event_to_validated_dict encode_gateway_state_event check_header is_event
    validate_correlation check_sequence check_int_field check_session_id text_eq state_value
    event_value isspace is_space_code strips_to_empty
activated-encoded = refl

event_to_validated_dict-event_to_dictionary_example :
    (d : Fields ℤ) × (activated_json ≡ object d) × SameEntries d (event_to_dictionary activated)
event_to_validated_dict-event_to_dictionary_example =
    event_to_validated_dict-event_to_dictionary whole activated activated_json activated-encoded
