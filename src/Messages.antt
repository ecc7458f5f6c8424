-- ===== src/Messages.antt =====
-- robot/vr_gateway/messages.py: the message classes. `F` is the type of floats.
-- A validated object is a record whose fields have their types; an object that nobody has
-- validated is a `Value` (Messages/Validation.antt).
pub mod Validation
use valera_control_tower.Base.{ℕ, Bool, Option, none, Text, text}

abbrev pub schema_version_text : Text
schema_version_text = text "0.1"

abbrev pub quest_local_frame : Text
quest_local_frame = text "quest_local"

pub data CommandName : Type 0 where
  session_start session_stop mode_set head_pose head_recenter emergency_stop : CommandName

pub data GatewayState : Type 0 where
  idle awaiting_recenter head_active safe_stopped estop_latched : GatewayState

pub data RejectionCode : Type 0 where
  stale_sequence stale_timestamp session_mismatch no_active_session : RejectionCode
  mode_blocked unknown_mode watchdog_active invalid_payload estop_latched : RejectionCode

pub data StopReason : Type 0 where
  watchdog emergency_stop session_stopped : StopReason

pub data EventName : Type 0 where
  gateway_state neck_target safety_stop command_rejected : EventName

pub record Quaternion (F : Type 0) : Type 0 where
  pub x : F
  pub y : F
  pub z : F
  pub w : F

pub record Position (F : Type 0) : Type 0 where
  pub x : F
  pub y : F
  pub z : F

pub record PosePayload (F : Type 0) : Type 0 where
  pub frame : Text
  pub orientation : Quaternion F
  pub position : Option (Position F)

-- `SessionStartPayload`, `ModeSetPayload`, `PosePayload` and `EmptyPayload`.
pub data Payload (F : Type 0) : Type 0 where
  session_start_payload : Text → Payload F
  mode_set_payload : Text → Payload F
  pose_payload : PosePayload F → Payload F
  empty_payload : Payload F

pub record CommandEnvelope (F : Type 0) : Type 0 where
  pub schema_version : Text
  pub command : CommandName
  pub session_id : Text
  pub sequence : ℕ
  pub timestamp_ms : ℕ
  pub payload : Payload F

pub record GatewayStateEvent : Type 0 where
  pub gateway_monotonic_ns : ℕ
  pub state : GatewayState
  pub session_id : Option Text
  pub sequence : Option ℕ
  pub schema_version : Text
  pub event_type : EventName

pub record NeckTargetEvent (F : Type 0) : Type 0 where
  pub gateway_monotonic_ns : ℕ
  pub session_id : Text
  pub sequence : ℕ
  pub pan_degrees : F
  pub tilt_degrees : F
  pub hold : Bool
  pub schema_version : Text
  pub event_type : EventName

pub record SafetyStopEvent : Type 0 where
  pub gateway_monotonic_ns : ℕ
  pub reason : StopReason
  pub session_id : Option Text
  pub sequence : Option ℕ
  pub neck_action : Text
  pub base_action : Text
  pub arm_action : Text
  pub schema_version : Text
  pub event_type : EventName

pub record CommandRejectedEvent : Type 0 where
  pub gateway_monotonic_ns : ℕ
  pub code : RejectionCode
  pub message : Text
  pub session_id : Option Text
  pub sequence : Option ℕ
  pub schema_version : Text
  pub event_type : EventName

pub data OutputEvent (F : Type 0) : Type 0 where
  state_event : GatewayStateEvent → OutputEvent F
  neck_event : NeckTargetEvent F → OutputEvent F
  stop_event : SafetyStopEvent → OutputEvent F
  rejected_event : CommandRejectedEvent → OutputEvent F
