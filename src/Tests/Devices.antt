-- ===== src/Tests/Devices.antt =====
-- The simulated adapters, and a mission over them, at concrete inputs.
use valera_control_tower.Base.{◌≡◌, refl, true, false, none, [], ◌∷◌, Text, text, ℤ, pos, ok}
use valera_control_tower.Wire.{end}
use valera_control_tower.Tasks.EventLog.{validate}
use valera_control_tower.Devices.{CameraRole, VisionDetection}
use valera_control_tower.Devices.Simulated.{
  SimCameraAdapter, sim_camera_adapter, camera_probe, capture_frame, SimVisionAdapter,
  sim_vision_adapter, detect, SimArmAdapter, sim_arm_adapter, arm_probe, simulate_grasp,
  default_joint_names,
}
use valera_control_tower.Devices.Runtime.{sim_camera, sim_vision, sim_arm}
use valera_control_tower.Missions.Open.{types}
use valera_control_tower.Missions.AdapterSim.{Log, run_adapter_simulated_mission}
use valera_control_tower.Missions.AdapterSim.Run.{
  mission_types, run_adapter_simulated_mission_total,
}
use valera_control_tower.Tests.Missions.{seconds, task}

abbrev built_arm : SimArmAdapter ℤ
built_arm = sim_arm_adapter (pos 0) (text "sim-arm") default_joint_names true

abbrev cube : VisionDetection ℤ
cube = record {
  object_id = text "cube";
  label = text "cube";
  confidence = pos 1;
  bounding_box = none;
  metadata = end;
}

-- In place of a digest: the text itself.
abbrev digest : Text → Text
digest s = s

abbrev built_camera : SimCameraAdapter ℤ
built_camera = sim_camera_adapter CameraRole.wrist none (pos 640, pos 480) false

abbrev built_vision : SimVisionAdapter ℤ
built_vision = sim_vision_adapter (cube ∷ []) (text "sim-vision")

run_adapter_simulated_mission_total_example :
    (log : Log ℤ seconds) × (run_adapter_simulated_mission ℤ seconds task
        (sim_camera digest)
        built_camera
        sim_vision
        built_vision
        sim_arm
        built_arm
      ≡ ok log)
    × (validate log ≡ ok tt)
    × (types log.events
        ≡ mission_types
            (capture_frame digest built_camera).1.artifact
            (λ uri. (detect built_vision uri).detections))
run_adapter_simulated_mission_total_example =
    run_adapter_simulated_mission_total ℤ seconds (sim_camera digest) sim_vision sim_arm
      (λ c. (c, camera_probe c)) (capture_frame digest) (λ v uri. (v, detect v uri))
      (λ a. (a, arm_probe a)) simulate_grasp (λ c. refl) (λ c. refl) (λ v uri. refl) (λ a. refl)
      (λ a b. refl) task refl built_camera built_vision built_arm refl
