-- ===== src/Devices/Interfaces.antt =====
-- robot/adapters/camera.py, vision.py and arm.py: the methods that robot/adapter_sim_mission.py
-- calls of an adapter, over the adapter's own state. A method returns or raises.
use valera_control_tower.Base.{Bool, Text, Result}
use valera_control_tower.Devices.{
  CameraProbeResult, FrameCaptureResult, VisionResult, ArmProbeResult, ArmCommandResult,
}

pub record CameraAdapter (F C : Type 0) : Type 0 where
  pub probe : C → Result (C × CameraProbeResult F)
  pub capture_frame : C → Result (C × FrameCaptureResult F)

pub record VisionAdapter (F V : Type 0) : Type 0 where
  pub detect : V → Text → Result (V × VisionResult F)

pub record ArmAdapter (F A : Type 0) : Type 0 where
  pub probe : A → Result (A × ArmProbeResult F)
  pub simulate_grasp : A → Bool → Result (A × ArmCommandResult F)
