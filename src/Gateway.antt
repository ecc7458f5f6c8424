-- ===== src/Gateway.antt =====
-- robot/vr_gateway/gateway.py: the session state of `VrGateway`, the deadlines and the helpers that
-- the handlers share. The reading of the clock is an argument; times are numbers of nanoseconds.
pub mod Handlers
pub mod Handle
pub mod Cases
pub mod Invariant
pub mod Trace
pub mod Latch
pub mod Diagram
pub mod Motion
pub mod Limits
pub mod Watchdog
pub mod Recovery
pub mod Simulation
pub mod Dictionary
pub mod Sessions
use valera_control_tower.Base.{
  ℕ, ◌+◌, Bool, true, false, ◌&&◌, Option, none, some, List, [], ◌∷◌, ◌++◌, Text, text, leb,
  if◌then◌else◌,
}
use valera_control_tower.Messages.{
  GatewayState, idle, awaiting_recenter, head_active, safe_stopped, RejectionCode, stale_sequence,
  stale_timestamp, session_mismatch, no_active_session, mode_blocked, unknown_mode, watchdog_active,
  invalid_payload, StopReason, gateway_state, safety_stop, command_rejected, CommandEnvelope,
  GatewayStateEvent, SafetyStopEvent, CommandRejectedEvent, OutputEvent, state_event, stop_event,
  schema_version_text,
}
use valera_control_tower.Neck.{NeckController}

pub record GatewayConfig : Type 0 where
  pub handshake_timeout_ns : ℕ
  pub motion_watchdog_timeout_ns : ℕ

abbrev pub default_config : GatewayConfig
default_config = record {
  handshake_timeout_ns = 10_000_000_000;
  motion_watchdog_timeout_ns = 250_000_000;
}

pub record VrGateway (F : Type 0) : Type 0 where
  pub neck_controller : NeckController F
  pub config : GatewayConfig
  pub state : GatewayState
  pub used_session_ids : List Text
  pub active_session_id : Option Text
  pub last_sequence : Option ℕ
  pub last_timestamp_ms : Option ℕ
  pub session_started_monotonic_ns : Option ℕ
  pub last_valid_packet_received_monotonic_ns : Option ℕ

-- `_REJECTION_MESSAGES`
unfoldable pub rejection_message : RejectionCode → Text
rejection_message stale_sequence = text "Sequence must increase within the session."
rejection_message stale_timestamp = text "Timestamp must not decrease within the session."
rejection_message session_mismatch = text "Command does not match the active session."
rejection_message no_active_session = text "No active session is available."
rejection_message mode_blocked = text "Requested operation is blocked in this mode."
rejection_message unknown_mode = text "Requested mode is not recognized."
rejection_message watchdog_active = text "The motion watchdog is active."
rejection_message invalid_payload = text "Command payload is invalid."
rejection_message RejectionCode.estop_latched = text "Emergency stop is latched."

-- `a is b` for two members of `GatewayState`.
unfoldable pub same_state : GatewayState → GatewayState → Bool
same_state idle idle = true
same_state awaiting_recenter awaiting_recenter = true
same_state head_active head_active = true
same_state safe_stopped safe_stopped = true
same_state GatewayState.estop_latched GatewayState.estop_latched = true
same_state _ _ = false

-- The constructors of the events fill in these fields by default.
abbrev pub safety_stop_event : ℕ → StopReason → Option Text → Option ℕ → SafetyStopEvent
safety_stop_event now reason session_id sequence = record {
  gateway_monotonic_ns = now;
  reason = reason;
  session_id = session_id;
  sequence = sequence;
  neck_action = text "HOLD_LAST_POSITION";
  base_action = text "STOP";
  arm_action = text "HOLD";
  schema_version = schema_version_text;
  event_type = safety_stop;
}

abbrev pub command_rejected_event :
    ℕ → RejectionCode → Option Text → Option ℕ → CommandRejectedEvent
command_rejected_event now code session_id sequence = record {
  gateway_monotonic_ns = now;
  code = code;
  message = rejection_message code;
  session_id = session_id;
  sequence = sequence;
  schema_version = schema_version_text;
  event_type = command_rejected;
}

abbrev pub gateway_state_event : ℕ → GatewayState → Option Text → Option ℕ → GatewayStateEvent
gateway_state_event now state session_id sequence = record {
  gateway_monotonic_ns = now;
  state = state;
  session_id = session_id;
  sequence = sequence;
  schema_version = schema_version_text;
  event_type = gateway_state;
}

-- `since is not None and now_ns - since >= timeout`
unfoldable pub expired : Option ℕ → ℕ → ℕ → Bool
expired none timeout now = false
expired (some since) timeout now = leb (since + timeout) now

module _ {F : Type 0} where
  -- `VrGateway.__init__`
  unfoldable pub vr_gateway : NeckController F → GatewayConfig → VrGateway F
  vr_gateway neck config = record {
    neck_controller = neck;
    config = config;
    state = idle;
    used_session_ids = [];
    active_session_id = none;
    last_sequence = none;
    last_timestamp_ms = none;
    session_started_monotonic_ns = none;
    last_valid_packet_received_monotonic_ns = none;
  }

  -- `_transition`, with the optional event as a list.
  unfoldable pub transition :
      VrGateway F → GatewayState → Option Text → Option ℕ → ℕ → VrGateway F × List (OutputEvent F)
  unfolding same_state
  transition g state session_id sequence now = if same_state g.state state then (g, []) else (
    record g { state = state },
    state_event (gateway_state_event now state session_id sequence) ∷ [],
  )

  -- `_invalidate_active_session`
  unfoldable pub invalidate : VrGateway F → VrGateway F
  invalidate g = record g {
    active_session_id = none;
    last_sequence = none;
    last_timestamp_ms = none;
    session_started_monotonic_ns = none;
    last_valid_packet_received_monotonic_ns = none;
  }

  -- `_accept`
  unfoldable pub accept : VrGateway F → CommandEnvelope F → ℕ → VrGateway F
  accept g c now = record g {
    last_sequence = some c.sequence;
    last_timestamp_ms = some c.timestamp_ms;
    last_valid_packet_received_monotonic_ns = some now;
  }

  unfoldable pub handshake_expired : VrGateway F → ℕ → Bool
  unfolding same_state expired
  handshake_expired g now =
      same_state g.state awaiting_recenter
      && expired g.session_started_monotonic_ns g.config.handshake_timeout_ns now

  unfoldable pub watchdog_expired : VrGateway F → ℕ → Bool
  unfolding same_state expired
  watchdog_expired g now =
      same_state g.state head_active
      && expired g.last_valid_packet_received_monotonic_ns g.config.motion_watchdog_timeout_ns now

  -- `_evaluate_deadline`, the two branches and the whole.
  unfoldable pub end_handshake : VrGateway F → ℕ → VrGateway F × List (OutputEvent F)
  unfolding transition invalidate
  end_handshake g now =
      let (g', events) = transition g idle g.active_session_id g.last_sequence now in
      (invalidate g', events)

  unfoldable pub stop_motion : VrGateway F → ℕ → VrGateway F × List (OutputEvent F)
  unfolding transition invalidate
  stop_motion g now =
      let (g', events) = transition g safe_stopped g.active_session_id g.last_sequence now in
      let stop = safety_stop_event now StopReason.watchdog g.active_session_id g.last_sequence in
      (invalidate g', events ++ (stop_event stop ∷ []))

  unfoldable pub evaluate_deadline : VrGateway F → ℕ → VrGateway F × List (OutputEvent F)
  evaluate_deadline g now =
      if handshake_expired g now
      then end_handshake g now
      else if watchdog_expired g now
      then stop_motion g now
      else (g, [])

  -- `poll`
  unfoldable pub poll : VrGateway F → ℕ → VrGateway F × List (OutputEvent F)
  poll g now = evaluate_deadline g now
