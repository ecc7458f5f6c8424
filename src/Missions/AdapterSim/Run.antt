-- ===== src/Missions/AdapterSim/Run.antt =====
-- robot/adapter_sim_mission.py: a mission over adapters that do not raise runs through, and what
-- it shows depends on the camera's frame and the vision's detections alone.
use valera_control_tower.Base.{
  ◌≡◌, refl, ap, ◌∙◌, Bool, true, false, Option, none, some, List, [], ◌∷◌, ◌++◌, Text, text,
  is_empty, ok,
}
use valera_control_tower.Tasks.Models.{Task, is_simulation, object_not_found}
use valera_control_tower.Tasks.Events.{
  Datetimes, EventType, task_created, task_accepted, plan_created, route_started, route_arrived,
  object_search_started, camera_probe_completed, camera_frame_captured, vision_object_detected,
  object_found, hardware_probe_completed, grasp_started, object_grasped, delivery_started,
  object_released, delivery_completed, task_completed, task_failed,
}
use valera_control_tower.Tasks.EventLog.{is_terminal, validate}
use valera_control_tower.Devices.{
  FrameArtifact, VisionDetection, CameraProbeResult, FrameCaptureResult, VisionResult,
  ArmProbeResult, ArmCommandResult,
}
use valera_control_tower.Devices.Interfaces.{CameraAdapter, VisionAdapter, ArmAdapter}
use valera_control_tower.Missions.Open.{IsOpen, new-IsOpen, types}
use valera_control_tower.Missions.AdapterSim.{
  Log, opening_rows, after_detection, after_frame, run_adapter_simulated_mission,
}
use valera_control_tower.Missions.AdapterSim.Payloads.{
  camera_probe_payload, frame_payload, vision_payload, not_found_payload, found_payload,
}
use valera_control_tower.Missions.AdapterSim.Trace.{
  Shows, builder_append_total, builder_fail_total, append_rows-IsOpen, Shows-cons,
  handle_object_total,
}

-- What the mission shows behind the vision's answer.
abbrev pub detected_types : {X : Type 0} → List X → List EventType
detected_types [] = EventType.object_not_found ∷ task_failed ∷ []
detected_types (x ∷ xs) =
    vision_object_detected ∷ object_found ∷ hardware_probe_completed ∷ grasp_started
    ∷ object_grasped ∷ delivery_started ∷ route_arrived ∷ object_released ∷ delivery_completed
    ∷ task_completed ∷ []

-- What it shows behind the captured frame, with the detections that the vision has for an address.
abbrev pub frame_types :
    {F X : Type 0} → Option (FrameArtifact F) → (Text → List X) → List EventType
frame_types none detections = task_failed ∷ []
frame_types (some a) detections = detected_types (detections a.artifact_uri)

-- All events of a mission.
abbrev pub mission_types :
    {F X : Type 0} → Option (FrameArtifact F) → (Text → List X) → List EventType
mission_types artifact detections =
    task_created
    ∷ plan_created
    ∷ task_accepted
    ∷ route_started
    ∷ route_arrived
    ∷ object_search_started
    ∷ camera_probe_completed
    ∷ camera_frame_captured
    ∷ frame_types artifact detections

module _ (F : Type 0) (dt : Datetimes) {C V A : Type 0} (camera : CameraAdapter F C)
    (vision : VisionAdapter F V) (arm : ArmAdapter F A) (p : C → C × CameraProbeResult F)
    (f : C → C × FrameCaptureResult F) (d : V → Text → V × VisionResult F)
    (g : A → A × ArmProbeResult F) (h : A → Bool → A × ArmCommandResult F)
    (camera_probes : (c : C) → camera.probe c ≡ ok (p c))
    (captures : (c : C) → camera.capture_frame c ≡ ok (f c))
    (detects : (v : V) (uri : Text) → vision.detect v uri ≡ ok (d v uri))
    (arm_probes : (a : A) → arm.probe a ≡ ok (g a))
    (grasps : (a : A) (b : Bool) → arm.simulate_grasp a b ≡ ok (h a b)) (task : Task)
    (named : is_empty task.task_id ≡ false) where
  open dt use {Datetime}

  after_detection_total :
      (a : A) (result : VisionResult F) (ds : List (VisionDetection F)) (log : Log F dt)
      → IsOpen task.task_id log
      → Shows F dt task named log
          (detected_types ds)
          (after_detection F dt task arm a result ds log)
  unfolding after_detection is_terminal
  after_detection_total a result [] log o =
      let (l, r, v, s, o') =
        builder_append_total F dt task named EventType.object_not_found
          (not_found_payload task result) none log o in
      let (m, ran, valid, shown) =
        builder_fail_total F dt task named object_not_found
          (text "vision adapter returned no detections") l refl (o' refl) in
      Shows-cons F dt task named log l EventType.object_not_found _ _ s (m, rw r ran, valid, shown)
  after_detection_total a result (x ∷ xs) log o =
      let (l, r, v, s, o') =
        builder_append_total F dt task named vision_object_detected (vision_payload task result)
          none log o in
      let (l', r', v', s', o'') =
        builder_append_total F dt task named object_found (found_payload task result x) none l
          (o' refl) in
      let (m, ran, valid, shown) =
        handle_object_total F dt task named arm g h arm_probes grasps a l' (o'' refl) in
      Shows-cons F dt task named log l vision_object_detected _ _ s
        (Shows-cons F dt task named l l' object_found _ _ s' (m, rw r (rw r' ran), valid, shown))

  after_frame_total :
      (v : V) (a : A) (artifact : Option (FrameArtifact F)) (log : Log F dt)
      → IsOpen task.task_id log
      → Shows F dt task named log
          (frame_types artifact (λ uri. (d v uri).1.detections))
          (after_frame F dt task vision v arm a artifact log)
  unfolding after_frame
  after_frame_total v a none log o =
      builder_fail_total F dt task named object_not_found
        (text "simulated camera did not return a frame") log refl o
  after_frame_total v a (some artifact) log o = rw (detects v artifact.artifact_uri) (
      after_detection_total a (d v artifact.artifact_uri).1 (d v artifact.artifact_uri).1.detections
        log o)

  -- A mission of a named simulation task over adapters that answer returns a log that validates.
  -- It completes exactly if the camera gives a frame and the vision a detection in it; otherwise it
  -- ends with task.failed, behind object.not_found where a frame was there. What the camera and the
  -- arm say of their success plays no part: a grasp that fails is followed by task.completed too.
  pub run_adapter_simulated_mission_total :
      (c : C) (v : V) (a : A)
      → is_simulation task.mode ≡ true
      → (log : Log F dt) × (run_adapter_simulated_mission F dt task camera c vision v arm a
          ≡ ok log)
        × (validate log ≡ ok tt)
        × (types log.events ≡ mission_types (f (p c).0).1.artifact (λ uri. (d v uri).1.detections))
  unfolding run_adapter_simulated_mission is_terminal
  run_adapter_simulated_mission_total c v a simulated =
      let (l0, r0, o0, s0) =
        append_rows-IsOpen F dt task named (opening_rows F dt task) _ (new-IsOpen task.task_id)
          (refl, (refl, (refl, (refl, (refl, (refl, tt)))))) in
      let (l1, r1, v1, s1, o1) =
        builder_append_total F dt task named camera_probe_completed
          (camera_probe_payload task (p c).1) none l0 o0 in
      let (l2, r2, v2, s2, o2) =
        builder_append_total F dt task named camera_frame_captured
          (frame_payload task (f (p c).0).1) none l1 (o1 refl) in
      let (m, ran, valid, shown) = after_frame_total v a (f (p c).0).1.artifact l2 (o2 refl) in
      let (m', ran', valid', shown') =
        Shows-cons F dt task named l0 l1 camera_probe_completed _ _ s1 (
          Shows-cons F dt task named l1 l2 camera_frame_captured _ _ s2 (
            m,
            rw (simulated)
                (rw r0 (rw (camera_probes c) (rw r1 (rw (captures (p c).0) (rw r2 ran))))),
            valid,
            shown,
          )) in
      (
        m',
        ran',
        valid',
        shown'
            ∙ ap
                (λ u.
                  u
                  ++ camera_probe_completed
                    ∷ camera_frame_captured
                    ∷ frame_types (f (p c).0).1.artifact (λ uri. (d v uri).1.detections))
                s0,
      )
