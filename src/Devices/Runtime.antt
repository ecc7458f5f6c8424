-- ===== src/Devices/Runtime.antt =====
-- robot/adapter_runtime.py: the simulated adapters of a configuration, behind the interfaces.
use valera_control_tower.Base.{
  ℤ, pos, negsuc, Bool, true, false, ◌||◌, not, none, some, List, [], ◌∷◌, Text, text, ltb, Result,
  ok, raised, ◌>>=◌, ◌>>◌, raise_if, value_error, validation_error, hardware_mode_error,
}
use valera_control_tower.Tasks.Models.{Raw, member_value, raw_text, raw_other, member_of}
use valera_control_tower.Devices.{
  AdapterMode, simulation, dry_run, probe, hardware, CameraRole, front_nav, wrist, overhead,
  operator_view, adapter_mode_value, camera_role_value, VisionDetection,
}
use valera_control_tower.Devices.Interfaces.{CameraAdapter, VisionAdapter, ArmAdapter}
use valera_control_tower.Devices.Simulated.{
  SimCameraAdapter, sim_camera_adapter, camera_probe, capture_frame, SimVisionAdapter,
  sim_vision_adapter, detect, SimArmAdapter, sim_arm_adapter, arm_probe, simulate_grasp,
  default_joint_names,
}

abbrev all_adapter_modes : List AdapterMode
all_adapter_modes = simulation ∷ dry_run ∷ probe ∷ hardware ∷ []

abbrev all_camera_roles : List CameraRole
all_camera_roles = front_nav ∷ wrist ∷ overhead ∷ operator_view ∷ []

-- `EnumType(value)`
unfoldable pub to_enum : {A : Type 0} → (A → Text) → List A → Raw A → Result A
unfolding member_of
to_enum value members (member_value a) = ok a
to_enum value members (raw_text s) = elim (member_of value members s) [
  | some a ↦ ok a
  | none ↦ raised value_error
]
to_enum value members raw_other = raised value_error

pub record AdapterRuntimeConfig (F : Type 0) : Type 0 where
  pub mode : AdapterMode
  pub camera_role : CameraRole
  pub camera_resolution : ℤ × ℤ
  pub vision_detections : List (VisionDetection F)
  pub arm_adapter_id : Text

-- `i <= 0`
abbrev pub is_positive : ℤ → Bool
is_positive (pos n) = ltb 0 n
is_positive (negsuc n) = false

abbrev pub is_hardware_mode : AdapterMode → Bool
is_hardware_mode hardware = true
is_hardware_mode _ = false

abbrev pub is_simulation_mode : AdapterMode → Bool
is_simulation_mode simulation = true
is_simulation_mode _ = false

pub record AdapterRuntime (F : Type 0) : Type 0 where
  pub camera : SimCameraAdapter F
  pub vision : SimVisionAdapter F
  pub arm : SimArmAdapter F

module _ {F : Type 0} where
  -- `AdapterRuntimeConfig.__post_init__`
  unfoldable pub adapter_runtime_config :
      Raw AdapterMode
      → Raw CameraRole
      → ℤ × ℤ
      → List (VisionDetection F)
      → Text
      → Result (AdapterRuntimeConfig F)
  unfolding to_enum
  adapter_runtime_config mode role resolution detections arm_adapter_id = do
    m ← to_enum adapter_mode_value all_adapter_modes mode
    r ← to_enum camera_role_value all_camera_roles role
    raise_if (not (is_positive resolution.0) || not (is_positive resolution.1)) validation_error
    ok (record {
      mode = m;
      camera_role = r;
      camera_resolution = resolution;
      vision_detections = detections;
      arm_adapter_id = arm_adapter_id;
    })

  -- `build_adapter_runtime`
  unfoldable pub build_adapter_runtime : F → AdapterRuntimeConfig F → Result (AdapterRuntime F)
  unfolding sim_camera_adapter sim_vision_adapter sim_arm_adapter
  build_adapter_runtime zero_f c = do
    raise_if (is_hardware_mode c.mode) hardware_mode_error
    raise_if (not (is_simulation_mode c.mode)) validation_error
    ok (record {
      camera = sim_camera_adapter c.camera_role none c.camera_resolution false;
      vision = sim_vision_adapter c.vision_detections (text "sim-vision");
      arm = sim_arm_adapter zero_f c.arm_adapter_id default_joint_names true;
    })

  -- The simulated adapters as implementations of the interfaces.
  abbrev pub sim_camera : (Text → Text) → CameraAdapter F (SimCameraAdapter F)
  sim_camera sha256 = record {
    probe = λ c. ok (c, camera_probe c);
    capture_frame = λ c. ok (capture_frame sha256 c);
  }

  abbrev pub sim_vision : VisionAdapter F (SimVisionAdapter F)
  sim_vision = record { detect = λ v uri. ok (v, detect v uri) }

  abbrev pub sim_arm : ArmAdapter F (SimArmAdapter F)
  sim_arm = record {
    probe = λ a. ok (a, arm_probe a);
    simulate_grasp = λ a gripper_open. ok (simulate_grasp a gripper_open);
  }
