-- ===== src/Missions/AdapterSim.antt =====
-- robot/adapter_sim_mission.py: the simulated mission over the adapter interfaces. The adapters
-- hand their own states on; what they raise leaves the mission.
pub mod Payloads
pub mod Trace
pub mod Run
use valera_control_tower.Base.{
  ℕ, ◌+◌, ◌-◌, Bool, true, false, not, Option, none, some, List, [], ◌∷◌, ◌++◌, Text, text, Result,
  ok, raised, ◌>>=◌, ◌>>◌, raise_if, validation_error,
}
use valera_control_tower.Wire.{Json, string, number, Fields, end, field}
use valera_control_tower.Tasks.Models.{
  Task, simulation, is_simulation, member_value, FailureCode, object_not_found,
}
use valera_control_tower.Tasks.Events.{
  Datetimes, EventType, task_created, task_accepted, plan_created, route_started, route_arrived,
  object_search_started, camera_probe_completed, camera_frame_captured, vision_object_detected,
  object_found, hardware_probe_completed, grasp_started, object_grasped, delivery_started,
  object_released, delivery_completed, task_completed, task_failed, EventError, EventEnvelope,
  event_envelope, event_error, event_schema_version,
}
use valera_control_tower.Tasks.EventLog.{TaskEventLog, append, validate, last_sequence}
use valera_control_tower.Devices.{FrameArtifact, VisionDetection, VisionResult}
use valera_control_tower.Devices.Interfaces.{CameraAdapter, VisionAdapter, ArmAdapter}
use valera_control_tower.Missions.{
  numbered_id, merge, base_payload, with_status, with_target, planned_route,
}
use valera_control_tower.Missions.AdapterSim.Payloads.{
  camera_probe_payload, frame_payload, vision_payload, arm_probe_payload, grasp_payload,
  not_found_payload, found_payload,
}

-- `ADAPTER_SIM_SOURCE`
abbrev pub adapter_sim_source : Text
adapter_sim_source = text "valera.adapter_sim_mission"

module _ (F : Type 0) (dt : Datetimes) where
  open dt use {Datetime, utc, add_seconds}

  abbrev pub Log : Type 0
  Log = TaskEventLog Datetime F

  -- `_EventBuilder.append`, with the builder's log.
  unfoldable pub builder_append : Task → EventType → Fields F → Option EventError → Log → Result Log
  builder_append task event_type payload error log = do
    let correlation_id = task.task_id ++ text "-adapter-simulation"
    let sequence = last_sequence log + 1
    event ←
        event_envelope dt (numbered_id correlation_id sequence) task.task_id correlation_id sequence
          (member_value event_type) (add_seconds (utc 2026 7 2 13 0) (sequence - 1))
          adapter_sim_source (member_value simulation) payload event_schema_version [] error
    append log event

  -- `_EventBuilder.fail`
  unfoldable pub builder_fail : Task → FailureCode → Text → Log → Result Log
  builder_fail task code message log = do
    error ← event_error (member_value code) message
    log' ← builder_append task task_failed (with_status task (text "failed")) (some error) log
    validate log'
    ok log'

  -- The appends of a row of events with their payloads.
  unfoldable pub append_rows : Task → List (EventType × Fields F) → Log → Result Log
  append_rows task [] log = ok log
  append_rows task ((t, payload) ∷ rows) log = do
    log' ← builder_append task t payload none log
    append_rows task rows log'

  -- The events in front of the camera.
  abbrev pub opening_rows : Task → List (EventType × Fields F)
  opening_rows task =
      (task_created, with_status task (text "created"))
      ∷ (
        plan_created,
        merge (base_payload task) (
            field (text "status") (string (text "planned"))
              (field (text "planned_route") (planned_route task) end)),
      )
      ∷ (task_accepted, with_status task (text "accepted"))
      ∷ (route_started, with_target task (text "in_transit") task.pickup_zone)
      ∷ (route_arrived, with_target task (text "arrived") task.pickup_zone)
      ∷ (object_search_started, with_target task (text "searching") task.pickup_zone)
      ∷ []

  -- The events behind the grasp.
  abbrev pub closing_rows : Task → List (EventType × Fields F)
  closing_rows task =
      (delivery_started, with_target task (text "delivering") task.delivery_zone)
      ∷ (route_arrived, with_target task (text "arrived") task.delivery_zone)
      ∷ (object_released, with_target task (text "released") task.delivery_zone)
      ∷ (delivery_completed, with_target task (text "delivered") task.delivery_zone)
      ∷ (task_completed, with_target task (text "completed") task.delivery_zone)
      ∷ []

  -- The mission from the arm's probe on.
  unfoldable pub handle_object : {A : Type 0} → Task → ArmAdapter F A → A → Log → Result Log
  handle_object task arm a log = do
    probed ← arm.probe a
    log1 ← builder_append task hardware_probe_completed (arm_probe_payload task probed.1) none log
    log2 ←
        builder_append task grasp_started (with_target task (text "grasping") task.pickup_zone) none
          log1
    grasped ← arm.simulate_grasp probed.0 false
    log3 ← builder_append task object_grasped (grasp_payload task grasped.1) none log2
    log4 ← append_rows task (closing_rows task) log3
    validate log4
    ok log4

  -- The mission from the vision's answer on.
  unfoldable pub after_detection :
      {A : Type 0}
      → Task
      → ArmAdapter F A
      → A
      → VisionResult F
      → List (VisionDetection F)
      → Log
      → Result Log
  after_detection task arm a result [] log = do
    log1 ← builder_append task EventType.object_not_found (not_found_payload task result) none log
    builder_fail task object_not_found (text "vision adapter returned no detections") log1
  after_detection task arm a result (detection ∷ detections) log = do
    log1 ← builder_append task vision_object_detected (vision_payload task result) none log
    log2 ← builder_append task object_found (found_payload task result detection) none log1
    handle_object task arm a log2

  -- The mission from the captured frame on.
  unfoldable pub after_frame :
      {V A : Type 0}
      → Task
      → VisionAdapter F V
      → V
      → ArmAdapter F A
      → A
      → Option (FrameArtifact F)
      → Log
      → Result Log
  after_frame task vision v arm a none log =
      builder_fail task object_not_found (text "simulated camera did not return a frame") log
  after_frame task vision v arm a (some artifact) log = do
    detected ← vision.detect v artifact.artifact_uri
    after_detection task arm a detected.1 detected.1.detections log

  -- `run_adapter_simulated_mission`
  unfoldable pub run_adapter_simulated_mission :
      {C V A : Type 0}
      → Task
      → CameraAdapter F C
      → C
      → VisionAdapter F V
      → V
      → ArmAdapter F A
      → A
      → Result Log
  run_adapter_simulated_mission task camera c vision v arm a = do
    raise_if (not (is_simulation task.mode)) validation_error
    log ← append_rows task (opening_rows task) (record { task_id = task.task_id; events = [] })
    probed ← camera.probe c
    log1 ← builder_append task camera_probe_completed (camera_probe_payload task probed.1) none log
    captured ← camera.capture_frame probed.0
    log2 ← builder_append task camera_frame_captured (frame_payload task captured.1) none log1
    after_frame task vision v arm a captured.1.artifact log2
