-- ===== src/Gateway/Handlers.antt =====
-- robot/vr_gateway/gateway.py: the handlers and `handle`. A call returns the gateway that it leaves
-- behind and its events, or the exception that it raises.
use valera_control_tower.Base.{
  ℕ, Bool, true, false, ◌||◌, not, Option, none, some, List, [], ◌∷◌, ◌++◌, Text, text, text_eq,
  member, is_empty, pos, ltb, leb, ◌==◌, if◌then◌else◌, Result, ok, raised, Exception,
  message_validation_error, attribute_error, type_error, value_error, assertion_error,
}
use valera_control_tower.Base.Float.{FloatOps}
use valera_control_tower.Messages.{
  CommandName, session_start, session_stop, mode_set, head_pose, head_recenter, GatewayState, idle,
  awaiting_recenter, head_active, safe_stopped, RejectionCode, stale_sequence, stale_timestamp,
  session_mismatch, no_active_session, mode_blocked, unknown_mode, watchdog_active, invalid_payload,
  StopReason, neck_target, Quaternion, CommandEnvelope, Payload, session_start_payload,
  mode_set_payload, pose_payload, empty_payload, NeckTargetEvent, OutputEvent, neck_event,
  stop_event, rejected_event, schema_version_text,
}
use valera_control_tower.Messages.Validation.{
  Value, envelope_value, str_value, int_value, normalized,
}
use valera_control_tower.Neck.{NeckTarget, recenter, update}
use valera_control_tower.Gateway.{
  VrGateway, same_state, transition, invalidate, accept, safety_stop_event, command_rejected_event,
}

-- What a call leaves behind and gives back.
abbrev pub Outcome : Type 0 → Type 0
Outcome F = VrGateway F × Result (List (OutputEvent F))

-- The exceptions that `handle` catches from the validation.
abbrev pub is_caught : Exception → Bool
is_caught message_validation_error = true
is_caught attribute_error = true
is_caught type_error = true
is_caught value_error = true
is_caught _ = false

abbrev pub is_emergency_stop : CommandName → Bool
is_emergency_stop CommandName.emergency_stop = true
is_emergency_stop _ = false

abbrev pub is_session_start : CommandName → Bool
is_session_start session_start = true
is_session_start _ = false

-- `mode in {"drive", "arm"}`
abbrev pub is_blocked_mode : Text → Bool
is_blocked_mode mode = text_eq mode (text "drive") || text_eq mode (text "arm")

abbrev is_stale_sequence : Option ℕ → ℕ → Bool
is_stale_sequence none sequence = false
is_stale_sequence (some last) sequence = leb sequence last

abbrev is_stale_timestamp : Option ℕ → ℕ → Bool
is_stale_timestamp none timestamp = false
is_stale_timestamp (some last) timestamp = ltb timestamp last

module _ {F : Type 0} where
  abbrev pub is_empty_payload : Payload F → Bool
  is_empty_payload empty_payload = true
  is_empty_payload _ = false

  -- `_reject`
  unfoldable pub reject : CommandEnvelope F → RejectionCode → ℕ → OutputEvent F
  reject c code now =
      rejected_event (command_rejected_event now code (some c.session_id) (some c.sequence))

  abbrev pub rejecting : VrGateway F → CommandEnvelope F → RejectionCode → ℕ → Outcome F
  rejecting g c code now = (g, ok (reject c code now ∷ []))

  abbrev untrusted_session_id : Value F → Option Text
  untrusted_session_id (str_value s) = if is_empty s then none else some s
  untrusted_session_id _ = none

  abbrev untrusted_sequence : Value F → Option ℕ
  untrusted_sequence (int_value (pos n)) = if ltb n 1 then none else some n
  untrusted_sequence _ = none

  -- `_reject_untrusted`
  unfoldable pub reject_untrusted : Value F → RejectionCode → ℕ → OutputEvent F
  reject_untrusted (envelope_value schema command session sequence timestamp payload) code now =
      rejected_event (
        command_rejected_event now code (untrusted_session_id session)
          (untrusted_sequence sequence))
  reject_untrusted _ code now = rejected_event (command_rejected_event now code none none)

  -- `_handle_session_start`, from the acceptance on.
  unfoldable pub start_session : VrGateway F → CommandEnvelope F → ℕ → Outcome F
  unfolding transition
  start_session g c now =
      let g' = record g {
        used_session_ids = c.session_id ∷ g.used_session_ids;
        active_session_id = some c.session_id;
        last_sequence = some c.sequence;
        last_timestamp_ms = some c.timestamp_ms;
        session_started_monotonic_ns = some now;
        last_valid_packet_received_monotonic_ns = some now;
      } in
      let (g'', events) =
        transition g' awaiting_recenter (some c.session_id) (some c.sequence) now in
      (g'', ok events)

  -- The code with which `_handle_session_start` rejects, if it does.
  unfoldable pub start_rejection :
      VrGateway F → CommandEnvelope F → Payload F → Option RejectionCode
  start_rejection g c (session_start_payload mode) =
      if same_state g.state GatewayState.estop_latched
      then some RejectionCode.estop_latched
      else if not (c.sequence == 1)
      then some invalid_payload
      else if member c.session_id g.used_session_ids
      then some invalid_payload
      else if is_blocked_mode mode
      then some mode_blocked
      else if not (text_eq mode (text "head"))
      then some unknown_mode
      else none
  start_rejection g c _ =
      if same_state g.state GatewayState.estop_latched
      then some RejectionCode.estop_latched
      else some invalid_payload

  -- `_handle_session_start`
  unfoldable pub handle_session_start : VrGateway F → CommandEnvelope F → ℕ → Outcome F
  handle_session_start g c now = elim (start_rejection g c c.payload) [
    | some code ↦ rejecting g c code now
    | none ↦ start_session g c now
  ]

  -- `_handle_mode_set`
  unfoldable pub handle_mode_set : VrGateway F → CommandEnvelope F → ℕ → Payload F → Outcome F
  handle_mode_set g c now (mode_set_payload mode) =
      if is_blocked_mode mode
      then rejecting g c mode_blocked now
      else if not (text_eq mode (text "head"))
      then rejecting g c unknown_mode now
      else (accept g c now, ok [])
  handle_mode_set g c now _ = (g, raised assertion_error)

  -- `_handle_session_stop`
  unfoldable pub handle_session_stop : VrGateway F → CommandEnvelope F → ℕ → Outcome F
  unfolding accept transition invalidate
  handle_session_stop g c now =
      let (g', events) =
        transition (accept g c now) idle (some c.session_id) (some c.sequence) now in
      let stop =
        safety_stop_event now StopReason.session_stopped (some c.session_id) (some c.sequence) in
      (invalidate g', ok (events ++ (stop_event stop ∷ [])))

  -- `_handle_emergency_stop`
  unfoldable pub handle_emergency_stop : VrGateway F → CommandEnvelope F → ℕ → Outcome F
  unfolding transition invalidate
  handle_emergency_stop g c now =
      let (g', events) =
        transition g GatewayState.estop_latched (some c.session_id) (some c.sequence) now in
      let stop =
        safety_stop_event now StopReason.emergency_stop (some c.session_id) (some c.sequence) in
      (invalidate g', ok (events ++ (stop_event stop ∷ [])))

  -- `expected_payload`, and the test against it.
  unfoldable pub payload_expected : CommandName → Payload F → Bool
  payload_expected session_stop empty_payload = true
  payload_expected mode_set (mode_set_payload mode) = true
  payload_expected head_pose (pose_payload pose) = true
  payload_expected head_recenter (pose_payload pose) = true
  payload_expected _ _ = false

  -- The guards of `handle` in front of the dispatch, in their order.
  unfoldable pub rejection_of : VrGateway F → CommandEnvelope F → Option RejectionCode
  unfolding payload_expected
  rejection_of g c =
      if same_state g.state safe_stopped then some watchdog_active else elim g.active_session_id [
        | none ↦ some no_active_session
        | some active ↦
            if not (text_eq c.session_id active)
            then some session_mismatch
            else if is_stale_sequence g.last_sequence c.sequence
            then some stale_sequence
            else if is_stale_timestamp g.last_timestamp_ms c.timestamp_ms
            then some stale_timestamp
            else if not (payload_expected c.command c.payload)
            then some invalid_payload
            else none
      ]

module _ (fl : FloatOps) where
  open fl use {F}

  -- `_handle_recenter` behind the normalisation: nothing is assigned before it.
  unfoldable pub recenter_to : VrGateway F → CommandEnvelope F → Quaternion F → ℕ → Outcome F
  unfolding accept transition
  recenter_to g c orientation now =
      let neck = recenter fl g.neck_controller orientation now (same_state g.state head_active) in
      let (g', events) =
        transition (accept (record g { neck_controller = neck }) c now) head_active
          (some c.session_id) (some c.sequence) now in
      (g', ok events)

  -- `_handle_recenter`
  unfoldable pub handle_recenter : VrGateway F → CommandEnvelope F → ℕ → Payload F → Outcome F
  handle_recenter g c now (pose_payload pose) =
      if not (same_state g.state awaiting_recenter || same_state g.state head_active)
      then rejecting g c mode_blocked now
      else elim (normalized fl pose.orientation) [
        | raised e ↦ (g, raised e)
        | ok orientation ↦ recenter_to g c orientation now
      ]
  handle_recenter g c now _ = (g, raised assertion_error)

  abbrev pub neck_target_event : CommandEnvelope F → NeckTarget F → ℕ → NeckTargetEvent F
  neck_target_event c target now = record {
    gateway_monotonic_ns = now;
    session_id = c.session_id;
    sequence = c.sequence;
    pan_degrees = target.pan_degrees;
    tilt_degrees = target.tilt_degrees;
    hold = false;
    schema_version = schema_version_text;
    event_type = neck_target;
  }

  -- `_handle_pose` behind the normalisation: where `update` raises, what it assigned stays.
  unfoldable pub pose_to : VrGateway F → CommandEnvelope F → Quaternion F → ℕ → Outcome F
  unfolding accept
  pose_to g c orientation now =
      let (neck, result) = update fl g.neck_controller orientation now in
      elim result [
        | raised e ↦ (record g { neck_controller = neck }, raised e)
        | ok target ↦ (
          accept (record g { neck_controller = neck }) c now,
          ok (neck_event (neck_target_event c target now) ∷ []),
        )
      ]

  -- `_handle_pose`
  unfoldable pub handle_pose : VrGateway F → CommandEnvelope F → ℕ → Payload F → Outcome F
  handle_pose g c now (pose_payload pose) =
      if not (same_state g.state head_active)
      then rejecting g c mode_blocked now
      else elim (normalized fl pose.orientation) [
        | raised e ↦ (g, raised e)
        | ok orientation ↦ pose_to g c orientation now
      ]
  handle_pose g c now _ = (g, raised assertion_error)
