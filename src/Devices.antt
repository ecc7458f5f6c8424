-- ===== src/Devices.antt =====
-- robot/adapters/base.py, camera.py, vision.py and arm.py: what the hardware adapters exchange. A
-- dict of metadata is a JSON object over the floats `F`.
pub mod Interfaces
pub mod Simulated
pub mod Runtime
pub mod Torque
use valera_control_tower.Base.{ℕ, ℤ, Bool, Option, List, Text, text}
use valera_control_tower.Wire.{Fields}

pub data AdapterMode : Type 0 where
  simulation dry_run probe hardware : AdapterMode

pub data AdapterType : Type 0 where
  arm camera vision base_motion : AdapterType

pub data AdapterStatus : Type 0 where
  ok degraded unavailable blocked : AdapterStatus

pub data CameraRole : Type 0 where
  front_nav wrist overhead operator_view : CameraRole

unfoldable pub adapter_mode_value : AdapterMode → Text
adapter_mode_value simulation = text "simulation"
adapter_mode_value dry_run = text "dry_run"
adapter_mode_value probe = text "probe"
adapter_mode_value hardware = text "hardware"

unfoldable pub adapter_type_value : AdapterType → Text
adapter_type_value arm = text "arm"
adapter_type_value camera = text "camera"
adapter_type_value vision = text "vision"
adapter_type_value base_motion = text "base_motion"

unfoldable pub camera_role_value : CameraRole → Text
camera_role_value front_nav = text "front_nav"
camera_role_value wrist = text "wrist"
camera_role_value overhead = text "overhead"
camera_role_value operator_view = text "operator_view"

pub record AdapterIdentity (F : Type 0) : Type 0 where
  pub adapter_id : Text
  pub adapter_type : AdapterType
  pub mode : AdapterMode
  pub display_name : Text
  pub metadata : Fields F

pub record AdapterHealth (F : Type 0) : Type 0 where
  pub status : AdapterStatus
  pub message : Text
  pub details : Fields F

pub record AdapterFailure (F : Type 0) : Type 0 where
  pub code : Text
  pub message : Text
  pub details : Fields F

pub record CameraCapabilities : Type 0 where
  pub roles : List CameraRole
  pub supports_frame_capture : Bool
  pub supports_depth : Bool
  pub resolutions : List (ℤ × ℤ)
  pub notes : List Text

pub record FrameArtifact (F : Type 0) : Type 0 where
  pub artifact_uri : Text
  pub frame_hash : Text
  pub media_type : Text
  pub width : ℤ
  pub height : ℤ
  pub metadata : Fields F

pub record CameraProbeResult (F : Type 0) : Type 0 where
  pub ok : Bool
  pub identity : AdapterIdentity F
  pub health : AdapterHealth F
  pub capabilities : CameraCapabilities
  pub device_label : Text
  pub failure : Option (AdapterFailure F)

pub record FrameCaptureResult (F : Type 0) : Type 0 where
  pub ok : Bool
  pub identity : AdapterIdentity F
  pub health : AdapterHealth F
  pub camera_role : CameraRole
  pub artifact : Option (FrameArtifact F)
  pub failure : Option (AdapterFailure F)

pub record BoundingBox : Type 0 where
  pub x : ℤ
  pub y : ℤ
  pub width : ℤ
  pub height : ℤ

pub record VisionDetection (F : Type 0) : Type 0 where
  pub object_id : Text
  pub label : Text
  pub confidence : F
  pub bounding_box : Option BoundingBox
  pub metadata : Fields F

pub record VisionResult (F : Type 0) : Type 0 where
  pub ok : Bool
  pub identity : AdapterIdentity F
  pub health : AdapterHealth F
  pub source_artifact_uri : Text
  pub detections : List (VisionDetection F)
  pub failure : Option (AdapterFailure F)

pub record ArmJointState (F : Type 0) : Type 0 where
  pub name : Text
  pub position_deg : Option F
  pub velocity_deg_s : Option F
  pub load : Option F
  pub temperature_c : Option F

pub record ArmCapabilities : Type 0 where
  pub can_read_state : Bool
  pub can_enable_torque : Bool
  pub can_move : Bool
  pub joint_count : ℕ
  pub supported_commands : List Text
  pub notes : List Text

pub record ArmState (F : Type 0) : Type 0 where
  pub joints : List (ArmJointState F)
  pub gripper_open : Option Bool
  pub torque_enabled : Bool
  pub metadata : Fields F

pub record ArmProbeResult (F : Type 0) : Type 0 where
  pub ok : Bool
  pub identity : AdapterIdentity F
  pub health : AdapterHealth F
  pub capabilities : ArmCapabilities
  pub state : Option (ArmState F)
  pub runtime : Text
  pub failure : Option (AdapterFailure F)

pub record ArmCommandResult (F : Type 0) : Type 0 where
  pub ok : Bool
  pub identity : AdapterIdentity F
  pub health : AdapterHealth F
  pub command_name : Text
  pub executed : Bool
  pub state : Option (ArmState F)
  pub failure : Option (AdapterFailure F)
