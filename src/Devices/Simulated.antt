-- ===== src/Devices/Simulated.antt =====
-- robot/adapters/sim_camera.py, sim_vision.py and sim_arm.py: the simulated adapters. The digest of
-- `hashlib.sha256` and the conversion of `0.0` are parameters.
use valera_control_tower.Base.{
  ℕ, ◌+◌, ℤ, pos, Bool, true, false, Option, none, some, List, [], ◌∷◌, ◌++◌, map, Text, text,
  is_empty, length, if◌then◌else◌,
}
use valera_control_tower.Wire.{integer, string, boolean, Fields, end, field}
use valera_control_tower.Missions.{format_06d}
use valera_control_tower.Devices.{
  AdapterMode, AdapterType, AdapterStatus, CameraRole, adapter_mode_value, camera_role_value,
  AdapterIdentity, AdapterHealth, CameraCapabilities, CameraProbeResult, FrameCaptureResult,
  VisionDetection, VisionResult, ArmCapabilities, ArmState, ArmProbeResult, ArmCommandResult,
}

abbrev healthy : {F : Type 0} → Text → Fields F → AdapterHealth F
healthy message details = record { status = AdapterStatus.ok; message = message; details = details }

-- `adapter_id or f"sim-camera-{role.value}"`
abbrev camera_id : Option Text → CameraRole → Text
camera_id none role = text "sim-camera-" ++ camera_role_value role
camera_id (some i) role = if is_empty i then text "sim-camera-" ++ camera_role_value role else i

-- The address of a frame.
unfoldable pub frame_uri : CameraRole → ℕ → Text
frame_uri role n = text "sim://camera/" ++ camera_role_value role ++ text "/frame-" ++ format_06d n

pub record SimCameraAdapter (F : Type 0) : Type 0 where
  pub role : CameraRole
  pub resolution : ℤ × ℤ
  pub supports_depth : Bool
  pub frame_number : ℕ
  pub identity : AdapterIdentity F

module _ {F : Type 0} where
  -- `SimCameraAdapter.__init__`
  unfoldable pub sim_camera_adapter : CameraRole → Option Text → ℤ × ℤ → Bool → SimCameraAdapter F
  sim_camera_adapter role adapter_id resolution supports_depth = record {
    role = role;
    resolution = resolution;
    supports_depth = supports_depth;
    frame_number = 0;
    identity = record {
      adapter_id = camera_id adapter_id role;
      adapter_type = AdapterType.camera;
      mode = AdapterMode.simulation;
      display_name = text "Simulated " ++ camera_role_value role ++ text " camera";
      metadata = field (text "role") (string (camera_role_value role)) end;
    };
  }

  -- `SimCameraAdapter.capabilities`, `health`, `probe` and `capture_frame`
  unfoldable pub camera_capabilities : SimCameraAdapter F → CameraCapabilities
  camera_capabilities c = record {
    roles = c.role ∷ [];
    supports_frame_capture = true;
    supports_depth = c.supports_depth;
    resolutions = c.resolution ∷ [];
    notes = text "Synthetic artifact references only; no camera device is opened." ∷ [];
  }

  unfoldable pub camera_health : SimCameraAdapter F → AdapterHealth F
  camera_health c =
      healthy (text "simulation camera ready")
        (field (text "camera_role") (string (camera_role_value c.role)) end)

  unfoldable pub camera_probe : SimCameraAdapter F → CameraProbeResult F
  unfolding camera_capabilities camera_health
  camera_probe c = record {
    ok = true;
    identity = c.identity;
    health = camera_health c;
    capabilities = camera_capabilities c;
    device_label = text "simulated:" ++ camera_role_value c.role;
    failure = none;
  }

  unfoldable pub capture_frame :
      (Text → Text) → SimCameraAdapter F → SimCameraAdapter F × FrameCaptureResult F
  unfolding camera_health
  capture_frame sha256 c =
      let n = c.frame_number + 1 in
      let uri = frame_uri c.role n in
      (
        record c { frame_number = n },
        record {
          ok = true;
          identity = c.identity;
          health = camera_health c;
          camera_role = c.role;
          artifact = some (record {
            artifact_uri = uri;
            frame_hash = text "sha256:" ++ sha256 uri;
            media_type = text "application/x.valera.sim-frame";
            width = c.resolution.0;
            height = c.resolution.1;
            metadata = field (text "camera_role") (string (camera_role_value c.role)) (
                field (text "frame_number") (integer (pos n))
                  (field (text "synthetic") (boolean true) end));
          });
          failure = none;
        },
      )

pub record SimVisionAdapter (F : Type 0) : Type 0 where
  pub detections : List (VisionDetection F)
  pub identity : AdapterIdentity F

module _ {F : Type 0} where
  -- `SimVisionAdapter.__init__`, `health` and `detect`
  unfoldable pub sim_vision_adapter : List (VisionDetection F) → Text → SimVisionAdapter F
  sim_vision_adapter detections adapter_id = record {
    detections = detections;
    identity = record {
      adapter_id = adapter_id;
      adapter_type = AdapterType.vision;
      mode = AdapterMode.simulation;
      display_name = text "Simulated vision";
      metadata = field (text "detection_source") (string (text "configured")) end;
    };
  }

  unfoldable pub vision_health : SimVisionAdapter F → AdapterHealth F
  vision_health v =
      healthy (text "simulation vision ready")
        (field (text "configured_detections") (integer (pos (length v.detections))) end)

  unfoldable pub detect : SimVisionAdapter F → Text → VisionResult F
  unfolding vision_health
  detect v uri = record {
    ok = true;
    identity = v.identity;
    health = vision_health v;
    source_artifact_uri = uri;
    detections = v.detections;
    failure = none;
  }

pub record SimArmAdapter (F : Type 0) : Type 0 where
  pub identity : AdapterIdentity F
  pub joint_names : List Text
  pub state : ArmState F

-- The default joints of `SimArmAdapter.__init__`.
abbrev pub default_joint_names : List Text
default_joint_names =
    text "base"
    ∷ text "shoulder"
    ∷ text "elbow"
    ∷ text "wrist_pitch"
    ∷ text "wrist_roll"
    ∷ text "gripper"
    ∷ []

module _ {F : Type 0} where
  -- `SimArmAdapter.__init__`
  unfoldable pub sim_arm_adapter : F → Text → List Text → Bool → SimArmAdapter F
  sim_arm_adapter zero_f adapter_id joint_names gripper_open = record {
    identity = record {
      adapter_id = adapter_id;
      adapter_type = AdapterType.arm;
      mode = AdapterMode.simulation;
      display_name = text "Simulated arm";
      metadata = end;
    };
    joint_names = joint_names;
    state = record {
      joints =
          map
            (λ name. record {
              name = name;
              position_deg = some zero_f;
              velocity_deg_s = none;
              load = none;
              temperature_c = none;
            })
            joint_names;
      gripper_open = some gripper_open;
      torque_enabled = false;
      metadata = field (text "source") (string (text "simulation")) end;
    };
  }

  -- `SimArmAdapter.capabilities`, `health`, `probe` and `simulate_grasp`
  unfoldable pub arm_capabilities : SimArmAdapter F → ArmCapabilities
  arm_capabilities a = record {
    can_read_state = true;
    can_enable_torque = false;
    can_move = true;
    joint_count = length a.joint_names;
    supported_commands = text "probe" ∷ text "read_state" ∷ text "simulate_grasp" ∷ [];
    notes = text "Simulation only; never enables torque or touches hardware." ∷ [];
  }

  unfoldable pub arm_health : SimArmAdapter F → AdapterHealth F
  arm_health a =
      healthy (text "simulation arm ready")
        (field (text "mode") (string (adapter_mode_value AdapterMode.simulation)) end)

  unfoldable pub arm_probe : SimArmAdapter F → ArmProbeResult F
  unfolding arm_capabilities arm_health
  arm_probe a = record {
    ok = true;
    identity = a.identity;
    health = arm_health a;
    capabilities = arm_capabilities a;
    state = some a.state;
    runtime = text "simulation";
    failure = none;
  }

  unfoldable pub simulate_grasp : SimArmAdapter F → Bool → SimArmAdapter F × ArmCommandResult F
  unfolding arm_health
  simulate_grasp a gripper_open =
      let state : ArmState F = record {
        joints = a.state.joints;
        gripper_open = some gripper_open;
        torque_enabled = false;
        metadata =
            field (text "source") (string (text "simulation"))
              (field (text "last_command") (string (text "simulate_grasp")) end);
      } in
      (
        record a { state = state },
        record {
          ok = true;
          identity = a.identity;
          health = arm_health a;
          command_name = text "simulate_grasp";
          executed = true;
          state = some state;
          failure = none;
        },
      )
