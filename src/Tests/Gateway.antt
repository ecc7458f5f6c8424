-- ===== src/Tests/Gateway.antt =====
-- robot/vr_gateway/gateway.py at concrete inputs: one session from its start to the watchdog.
use valera_control_tower.Base.{
  ℕ, ◌≡◌, refl, false, Text, none, some, List, [], ◌∷◌, text, text_eq, member, ok, ℤ, pos, arith,
  All,
}
use valera_control_tower.Messages.{
  CommandName, session_start, session_stop, head_pose, head_recenter, idle, awaiting_recenter,
  head_active, safe_stopped, CommandEnvelope, OutputEvent, neck_event, state_event, stop_event,
  rejected_event, empty_payload, session_start_payload, pose_payload, PosePayload,
}
use valera_control_tower.Messages.Validation.{
  Value, envelope_value, str_value, command_value, int_value, float_value, empty_value, none_value,
  pose_value, quaternion_value, session_start_value, validate_command_envelope, normalized,
}
use valera_control_tower.Neck.{
  update, elapsed_seconds, relative_angles_degrees, filter_alpha, move_target, recenter,
}
use valera_control_tower.Gateway.{
  VrGateway, default_config, vr_gateway, evaluate_deadline, poll, handshake_expired,
  watchdog_expired, end_handshake, stop_motion,
}
use valera_control_tower.Gateway.Handlers.{
  handle_session_start, start_session, start_rejection, handle_mode_set, handle_session_stop,
  handle_emergency_stop, rejection_of, handle_recenter, recenter_to, handle_pose, pose_to, reject,
  reject_untrusted,
}
use valera_control_tower.Gateway.Handle.{
  handle, handle_valid, after_deadline, route, perform, reject_invalid,
}
use valera_control_tower.Gateway.Invariant.{IsWellFormed}
use valera_control_tower.Gateway.Trace.{
  Call, handles, polls, step, run, run-vr_gateway-IsWellFormed, emitted,
}
use valera_control_tower.Gateway.Latch.{IsLatched, IsStill, run-IsLatched}
use valera_control_tower.Gateway.Diagram.{◌⟶◌, step-⟶}
use valera_control_tower.Gateway.Motion.{IsAllowed, handle-IsAllowed}
use valera_control_tower.Gateway.Limits.{InLimits, run-InLimits}
use valera_control_tower.Gateway.Sessions.{handle-rejected}
use valera_control_tower.Tests.Floats.{whole, whole-IsIeee}
use valera_control_tower.Gateway.Recovery.{run-recovers}
use valera_control_tower.Tests.Neck.{config, neck, straight, config_checked, neck_built}

abbrev message : CommandName → ℕ → ℕ → Value ℤ → Value ℤ
message command sequence timestamp payload =
    envelope_value (str_value (text "0.1")) (command_value command) (str_value (text "s"))
      (int_value (pos sequence)) (int_value (pos timestamp)) payload

abbrev turn : ℤ → ℤ → Value ℤ
turn y w =
    pose_value (str_value (text "quest_local"))
      (quaternion_value (float_value (pos 0)) (float_value y) (float_value (pos 0)) (float_value w))
      none_value

abbrev start : Value ℤ
start = message session_start 1 1000 (session_start_value (str_value (text "head")))

abbrev center : Value ℤ
center = message head_recenter 2 1001 (turn (pos 0) (pos 1))

abbrev look_back : Value ℤ
look_back = message head_pose 3 1101 (turn (pos 1) (pos 0))

abbrev stop : Value ℤ
stop = message CommandName.emergency_stop 4 1200 empty_value

abbrev new_gateway : VrGateway ℤ
new_gateway = record {
  neck_controller = neck;
  config = default_config;
  state = idle;
  used_session_ids = [];
  active_session_id = none;
  last_sequence = none;
  last_timestamp_ms = none;
  session_started_monotonic_ns = none;
  last_valid_packet_received_monotonic_ns = none;
}

abbrev waiting : VrGateway ℤ
waiting = record new_gateway {
  state = awaiting_recenter;
  used_session_ids = text "s" ∷ [];
  active_session_id = some (text "s");
  last_sequence = some 1;
  last_timestamp_ms = some 1000;
  session_started_monotonic_ns = some 1_000_000_000;
  last_valid_packet_received_monotonic_ns = some 1_000_000_000;
}

abbrev pub active : VrGateway ℤ
active = record waiting {
  state = head_active;
  last_sequence = some 2;
  last_timestamp_ms = some 1001;
}

abbrev pub session : List (Call ℤ)
session =
    handles start 1_000_000_000
    ∷ handles center 1_000_000_000
    ∷ handles look_back 1_100_000_000
    ∷ polls 1_350_000_000
    ∷ []

-- The calls of the session, computed.
unfoldable replay : VrGateway ℤ → List (Call ℤ) → VrGateway ℤ × List (OutputEvent ℤ)
unfolding run step poll handle handle_valid after_deadline route perform reject_invalid
    handle_session_start start_session start_rejection handle_mode_set handle_session_stop
    handle_emergency_stop rejection_of handle_recenter recenter_to handle_pose pose_to reject
    reject_untrusted evaluate_deadline handshake_expired watchdog_expired end_handshake stop_motion
    validate_command_envelope normalized update elapsed_seconds relative_angles_degrees filter_alpha
    move_target recenter text_eq member vr_gateway
replay g calls = run whole g calls

abbrev kind : OutputEvent ℤ → ℕ
kind (state_event e) = 0
kind (neck_event e) = 1
kind (stop_event e) = 2
kind (rejected_event e) = 3

abbrev kinds : List (OutputEvent ℤ) → List ℕ
kinds [] = []
kinds (e ∷ es) = kind e ∷ kinds es

session_ends :
    ((replay new_gateway session).0.state ≡ safe_stopped)
    × (kinds (replay new_gateway session).1 ≡ 0 ∷ 0 ∷ 1 ∷ 0 ∷ 2 ∷ [])
unfolding replay
session_ends = (refl, refl)

-- The validated `stop` and `look_back`.
abbrev stop_command : CommandEnvelope ℤ
stop_command = record {
  schema_version = text "0.1";
  command = CommandName.emergency_stop;
  session_id = text "s";
  sequence = 4;
  timestamp_ms = 1200;
  payload = empty_payload;
}

abbrev finish : Value ℤ
finish = message session_stop 5 1300 empty_value

abbrev finish_command : CommandEnvelope ℤ
finish_command = record stop_command { command = session_stop; sequence = 5; timestamp_ms = 1300 }

stop_validated : validate_command_envelope whole stop ≡ ok stop_command
unfolding validate_command_envelope text_eq
stop_validated = refl

active-IsWellFormed : IsWellFormed active
unfolding member text_eq
active-IsWellFormed = (refl, omega arith)

run-IsLatched_example :
    IsLatched (run whole active (handles stop 1_200_000_000 ∷ session)).0
    × All IsStill (run whole active (handles stop 1_200_000_000 ∷ session)).1
run-IsLatched_example =
    run-IsLatched whole active stop stop_command 1_200_000_000 session stop_validated refl refl

handle-IsAllowed_example :
    All (IsAllowed active 1_100_000_000) (emitted (handle whole active look_back 1_100_000_000).1)
handle-IsAllowed_example = handle-IsAllowed whole active look_back 1_100_000_000 active-IsWellFormed

run-InLimits_example :
    All (InLimits whole config) (run whole (vr_gateway neck default_config) session).1
run-InLimits_example =
    run-InLimits whole whole-IsIeee config config neck default_config session config_checked
      neck_built

run-vr_gateway-IsWellFormed_example :
    IsWellFormed (run whole (vr_gateway neck default_config) session).0
run-vr_gateway-IsWellFormed_example = run-vr_gateway-IsWellFormed whole neck default_config session

step-⟶_example : head_active ⟶ (step whole active (polls 1_350_000_000)).0.state
step-⟶_example = step-⟶ whole active (polls 1_350_000_000) active-IsWellFormed

-- `center` is stale once the gateway is active.
stale_center : (replay active (handles center 1_100_000_000 ∷ [])).0 ≡ active
unfolding replay
stale_center = refl

handle-rejected_example : (handle whole active center 1_100_000_000).0 ≡ active
unfolding replay
handle-rejected_example = handle-rejected whole active center 1_100_000_000 _ refl

-- A second session, of the gateway whose watchdog has run out.
abbrev in_session : Text → CommandName → ℕ → ℕ → Value ℤ → Value ℤ
in_session session command sequence timestamp payload =
    envelope_value (str_value (text "0.1")) (command_value command) (str_value session)
      (int_value (pos sequence)) (int_value (pos timestamp)) payload

abbrev restart : Value ℤ
restart = in_session (text "t") session_start 1 3000 (session_start_value (str_value (text "head")))

abbrev recenter_again : Value ℤ
recenter_again = in_session (text "t") head_recenter 2 3000 (turn (pos 0) (pos 1))

abbrev restart_command : CommandEnvelope ℤ
restart_command = record stop_command {
  command = session_start;
  session_id = text "t";
  sequence = 1;
  timestamp_ms = 3000;
  payload = session_start_payload (text "head");
}

abbrev ahead : PosePayload ℤ
ahead = record { frame = text "quest_local"; orientation = straight; position = none }

abbrev recenter_command : CommandEnvelope ℤ
recenter_command = record restart_command {
  command = head_recenter;
  sequence = 2;
  payload = pose_payload ahead;
}

restart_validated : validate_command_envelope whole restart ≡ ok restart_command
unfolding validate_command_envelope text_eq
restart_validated = refl

recenter_validated : validate_command_envelope whole recenter_again ≡ ok recenter_command
unfolding validate_command_envelope text_eq
recenter_validated = refl

normalized-straight : normalized whole straight ≡ ok straight
unfolding normalized
normalized-straight = refl

unused : member (text "t") active.used_session_ids ≡ false
unfolding member text_eq
unused = refl

run-recovers_example :
    ((run whole active (
        polls 3_000_000_000
        ∷ handles restart 3_000_000_000
        ∷ handles recenter_again 4_000_000_000
        ∷ [])).0.state
      ≡ head_active)
    × ((run whole active (
          polls 3_000_000_000
          ∷ handles restart 3_000_000_000
          ∷ handles recenter_again 4_000_000_000
          ∷ [])).0.active_session_id
        ≡ some (text "t"))
run-recovers_example =
    run-recovers whole active restart recenter_again restart_command recenter_command ahead straight
      3_000_000_000 4_000_000_000 (λ h. cc) restart_validated refl refl refl unused
      recenter_validated refl refl normalized-straight refl (omega arith) (omega arith)
      (omega arith)
