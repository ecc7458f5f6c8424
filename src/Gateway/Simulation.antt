-- ===== src/Gateway/Simulation.antt =====
-- robot/vr_gateway/simulation.py: the fixed configuration and messages, their run through a new
-- gateway, and the dictionaries of its events. `decimal n k` is the float literal n / 10^k.
use valera_control_tower.Base.{
  ℕ, ◌+◌, ◌*◌, List, [], ◌∷◌, ◌++◌, Text, text, ℤ, pos, Result, ok, ◌>>=◌,
}
use valera_control_tower.Base.Float.{FloatOps}
use valera_control_tower.Messages.{
  CommandName, session_start, head_recenter, head_pose, OutputEvent, state_event, neck_event,
  stop_event, rejected_event,
}
use valera_control_tower.Messages.Validation.{
  Value, envelope_value, str_value, command_value, int_value, float_value, none_value, pose_value,
  quaternion_value, session_start_value, validate_command_envelope,
}
use valera_control_tower.Neck.{NeckControlConfig, check_config, neck_controller}
use valera_control_tower.Gateway.{VrGateway, default_config, vr_gateway, poll}
use valera_control_tower.Gateway.Handle.{handle}
use valera_control_tower.Wire.{boolean, integer, number, string, Fields, end, field}
use valera_control_tower.Wire.Encode.{
  state_value, code_value, reason_value, event_value, text_or_null, int_or_null,
}

abbrev pub simulation_session_id : Text
simulation_session_id = text "simulation-head-session-001"

abbrev pub simulation_start_ns : ℕ
simulation_start_ns = 1_000_000_000

-- `_SimulationClock.advance_ms`
abbrev pub advance_ms : ℕ → ℕ → ℕ
advance_ms now milliseconds = now + milliseconds * 1_000_000

-- `_event_to_dictionary`: the fields of the event's class in their order, enumerations as values.
unfoldable pub event_to_dictionary : {F : Type 0} → OutputEvent F → Fields F
event_to_dictionary (state_event e) =
    field (text "gateway_monotonic_ns") (integer (pos e.gateway_monotonic_ns)) (
      field (text "state") (string (state_value e.state)) (
        field (text "session_id") (text_or_null e.session_id) (
          field (text "sequence") (int_or_null e.sequence) (
            field (text "schema_version") (string e.schema_version)
              (field (text "event_type") (string (event_value e.event_type)) end)))))
event_to_dictionary (neck_event e) =
    field (text "gateway_monotonic_ns") (integer (pos e.gateway_monotonic_ns)) (
      field (text "session_id") (string e.session_id) (
        field (text "sequence") (integer (pos e.sequence)) (
          field (text "pan_degrees") (number e.pan_degrees) (
            field (text "tilt_degrees") (number e.tilt_degrees) (
              field (text "hold") (boolean e.hold) (
                field (text "schema_version") (string e.schema_version)
                  (field (text "event_type") (string (event_value e.event_type)) end)))))))
event_to_dictionary (stop_event e) =
    field (text "gateway_monotonic_ns") (integer (pos e.gateway_monotonic_ns)) (
      field (text "reason") (string (reason_value e.reason)) (
        field (text "session_id") (text_or_null e.session_id) (
          field (text "sequence") (int_or_null e.sequence) (
            field (text "neck_action") (string e.neck_action) (
              field (text "base_action") (string e.base_action) (
                field (text "arm_action") (string e.arm_action) (
                  field (text "schema_version") (string e.schema_version)
                    (field (text "event_type") (string (event_value e.event_type)) end))))))))
event_to_dictionary (rejected_event e) =
    field (text "gateway_monotonic_ns") (integer (pos e.gateway_monotonic_ns)) (
      field (text "code") (string (code_value e.code)) (
        field (text "message") (string e.message) (
          field (text "session_id") (text_or_null e.session_id) (
            field (text "sequence") (int_or_null e.sequence) (
              field (text "schema_version") (string e.schema_version)
                (field (text "event_type") (string (event_value e.event_type)) end))))))

abbrev dictionaries : {F : Type 0} → List (OutputEvent F) → List (Fields F)
dictionaries [] = []
dictionaries (e ∷ es) = event_to_dictionary e ∷ dictionaries es

module _ (fl : FloatOps) (decimal : ℤ → ℕ → fl.F) where
  open fl use {F}

  -- `SIMULATION_NECK_CONFIG`
  abbrev pub simulation_neck_config : NeckControlConfig F
  simulation_neck_config = record {
    center_pan_degrees = fl.zero_f;
    center_tilt_degrees = fl.zero_f;
    initial_pan_degrees = fl.zero_f;
    initial_tilt_degrees = fl.zero_f;
    pan_gain = fl.one_f;
    tilt_gain = fl.one_f;
    filter_time_constant_seconds = decimal (pos 8) 2;
    max_pan_rate_degrees_per_second = decimal (pos 30) 0;
    max_tilt_rate_degrees_per_second = decimal (pos 20) 0;
    min_pan_degrees = fl.neg (decimal (pos 30) 0);
    max_pan_degrees = decimal (pos 30) 0;
    min_tilt_degrees = fl.neg (decimal (pos 20) 0);
    max_tilt_degrees = decimal (pos 20) 0;
  }

  -- `build_simulated_vr_gateway`, with the check of the configuration at the import.
  unfoldable pub build_simulated_vr_gateway : Result (VrGateway F)
  unfolding vr_gateway
  build_simulated_vr_gateway = do
    config ← check_config fl simulation_neck_config
    controller ← neck_controller fl config
    ok (vr_gateway controller default_config)

  abbrev simulation_message : CommandName → ℕ → ℕ → Value F → Value F
  simulation_message command sequence timestamp payload =
      envelope_value (str_value (text "0.1")) (command_value command)
        (str_value simulation_session_id) (int_value (pos sequence)) (int_value (pos timestamp))
        payload

  abbrev turned : F → Value F
  turned y =
      pose_value (str_value (text "quest_local"))
        (quaternion_value (float_value fl.zero_f) (float_value y) (float_value fl.zero_f)
          (float_value fl.one_f))
        none_value

  -- The three messages of the sequence.
  abbrev pub start_message : Value F
  start_message =
      simulation_message session_start 1 1_000 (session_start_value (str_value (text "head")))

  abbrev pub recenter_message : Value F
  recenter_message = simulation_message head_recenter 2 1_001 (turned fl.zero_f)

  abbrev pub pose_message : Value F
  pose_message = simulation_message head_pose 3 1_101 (turned (decimal (pos 1) 1))

  -- A message is made, which checks it, and handled; an exception ends the run.
  unfoldable pub made_and_handled :
      VrGateway F → Value F → ℕ → Result (VrGateway F × List (OutputEvent F))
  made_and_handled g message now = do
    made ← validate_command_envelope fl message
    events ← (handle fl g message now).1
    ok ((handle fl g message now).0, events)

  -- `run_simulated_head_sequence`
  unfoldable pub run_simulated_head_sequence : Result (List (Fields F))
  unfolding build_simulated_vr_gateway made_and_handled poll event_to_dictionary
  run_simulated_head_sequence = do
    gateway ← build_simulated_vr_gateway
    (started, starting) ← made_and_handled gateway start_message simulation_start_ns
    (active, centering) ← made_and_handled started recenter_message simulation_start_ns
    (moved, moving) ← made_and_handled active pose_message (advance_ms simulation_start_ns 100)
    ok (
        dictionaries (
          starting
          ++ centering
          ++ moving
          ++ (poll moved (advance_ms (advance_ms simulation_start_ns 100) 250)).1))
