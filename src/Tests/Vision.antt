-- ===== src/Tests/Vision.antt =====
-- Vision and the missions that use it, at concrete inputs. An image is a number, 0 without a marker.
use valera_control_tower.Base.{
  ℕ, ◌==◌, ◌≡◌, refl, Bool, true, false, ◌&&◌, Option, none, some, List, [], ◌∷◌, ◌++◌, Text, text,
  text_eq, member, ℤ, pos, Result, ok, raised, ◌⊎◌, if◌then◌else◌,
}
use valera_control_tower.Tasks.Models.{
  Task, pickup_zone, delivery_zone, real_vision, make_task, require_enum, mode_value,
}
use valera_control_tower.Tasks.Evidence.{
  PurePosixPaths, create_evidence_ref, evidence_ref, validate_for_task, local_path,
}
use valera_control_tower.Tasks.Events.{
  EventType, task_created, task_completed, EventEnvelope, event_envelope, event_error,
}
use valera_control_tower.Tasks.EventLog.{TaskEventLog, validate, is_terminal, append, last_sequence}
use valera_control_tower.Missions.{numbered_id, format_03d}
use valera_control_tower.Missions.Open.{types}
use valera_control_tower.Vision.{
  Cv2, Detection, detected, run_fixture_detection, vision_source, validate_task_mode,
  require_cv2_with_aruco, read_image, stored, write_image, checksum_of, report, not_found_event,
  found_event, detections_of, detection_of, bounding_box_of,
}
use valera_control_tower.Vision.Outcome.{IsOutcome, run_fixture_detection-IsOutcome}
use valera_control_tower.Vision.LiveCamera.{
  live_probe_runner, run_live_camera_marker_probe, capture_live_camera_frame, require_frame,
  probe_task,
}
use valera_control_tower.Vision.Demo.{IsProbed, run_physical_demo-IsProbed}
use valera_control_tower.Missions.Simulated.{
  approved_success_event_sequence, run_simulated_mission, reject_mode, append_events,
  simulated_event,
}
use valera_control_tower.Missions.Hybrid.{
  run_hybrid_fixture_mission, simulation_task, vision_task, first_found, is_object_found, detect_at,
  hybrid_log, append_hybrid, hybrid_event,
}
use valera_control_tower.Missions.HybridRun.{hybrid_types}
use valera_control_tower.Missions.HybridTotal.{run_hybrid_fixture_mission-ok}
use valera_control_tower.Missions.Physical.{
  operator_confirmations, Log, physical_task, mission, append_steps, append_step, physical_event,
  after_probe, confirm_steps, finish_completed, list_confirm, run_physical_demo,
  physical_demo_success_event_sequence, opening_event_types, occurred_at,
}
use valera_control_tower.Missions.PhysicalTotal.{IsProbe, run_physical_demo_total}
use valera_control_tower.Missions.PhysicalSafety.{all_confirmed, last_type}
use valera_control_tower.Wire.{end}
use valera_control_tower.Tests.Missions.{seconds, agreed}

-- The segments of a path, the current one collected in front.
abbrev pub segments : Text → Text → List Text
segments current [] = current ∷ []
segments current (c ∷ s) =
    let here = segments [] s in
    let more = segments (current ++ c ∷ []) s in if c == b'/' then current ∷ here else more

abbrev pub starts_with : List Text → List Text → Bool
starts_with s [] = true
starts_with [] (p ∷ ps) = false
starts_with (t ∷ s) (p ∷ ps) = text_eq t p && starts_with s ps

abbrev absolute : Text → Bool
absolute [] = false
absolute (c ∷ s) = c == b'/'

abbrev pub plain : PurePosixPaths
plain = record {
  FilePath = Text;
  path = λ s. s;
  is_absolute = absolute;
  parts = segments [];
  join = λ p s. p ++ text "/" ++ s;
  is_relative_to = λ p q. starts_with (segments [] p) (segments [] q);
  path_text = λ p. p;
}

abbrev markers : ℕ → Option (List ℤ) × List (List (ℤ × ℤ))
markers image = if image == 0 then (none, []) else (
  some (pos image ∷ []),
  ((pos 0, pos 0) ∷ (pos 9, pos 0) ∷ (pos 9, pos 9) ∷ (pos 0, pos 9) ∷ []) ∷ [],
)

-- A disk on which every file holds the image, and a camera that sees it.
abbrev pub eye : ℕ → Cv2 Text
eye image = record {
  World = ℕ;
  Image = ℕ;
  F = ℤ;
  one = pos 1;
  has_cv2 = true;
  has_aruco = true;
  is_file = λ w p. true;
  imread = λ w p. some image;
  imwrite = λ w p i. (w, true);
  make_parent = λ w p. ok w;
  sha256_file = λ w p. ok (text "0");
  detect_markers = markers;
  draw_marker = λ i m c. i;
  rounded = ok;
  minus = λ x y. x;
  least = λ xs. pos 0;
  greatest = λ xs. pos 9;
  is_opened = λ w i. ok true;
  read_frame = λ w i width height rate code. ok (w, some image);
  release = λ w i. w;
}

abbrev vision_job : Task
vision_job = record {
  task_id = text "t1";
  object_id = text "cube";
  pickup_zone = pickup_zone;
  delivery_zone = delivery_zone;
  mode = real_vision;
  description = [];
}

abbrev look : ℕ → Result (ℕ × EventEnvelope ℕ ℤ)
look image =
    run_fixture_detection seconds plain (eye image) vision_job (text "a.png") 7 (text "c")
      (text ".") (some 100) 0 vision_source (text "fixture image") 0

-- A value that a call gives, or another.
abbrev pub value_or : {A : Type 0} → A → Result A → A
value_or a (ok b) = b
value_or a (raised x) = a

abbrev blank : ℕ × EventEnvelope ℕ ℤ
blank = (
  0,
  record {
    event_id = [];
    task_id = [];
    correlation_id = [];
    sequence = 0;
    event_type = task_created;
    occurred_at = 0;
    source = [];
    mode = real_vision;
    payload = end;
    schema_version = [];
    evidence_refs = [];
    error = none;
  },
)

abbrev seen : ℕ → EventEnvelope ℕ ℤ
seen image = (value_or blank (look image)).1

look-returns : look 7 ≡ ok (0, seen 7)
unfolding run_fixture_detection validate_task_mode require_cv2_with_aruco read_image stored
    write_image checksum_of local_path create_evidence_ref evidence_ref validate_for_task text_eq
    member mode_value numbered_id format_03d detected detections_of detection_of bounding_box_of
    report found_event not_found_event event_envelope event_error require_enum
look-returns = refl

run_fixture_detection-IsOutcome_example :
    (real_vision ≡ real_vision)
    × ((image : ℕ) × (ds : List Detection) × (some 7 ≡ some image)
        × (detected seconds plain (eye 7) image ≡ ok ds)
        × IsOutcome seconds plain (eye 7) vision_job 7 (text "c") vision_source ds (seen 7))
run_fixture_detection-IsOutcome_example =
    run_fixture_detection-IsOutcome seconds plain (eye 7) vision_job (text "a.png") 7 (text "c")
      (text ".") (some 100) 0 vision_source (text "fixture image") 0 0 (seen 7) look-returns

abbrev hybrid : Result (ℕ × TaskEventLog ℕ ℤ)
hybrid =
    run_hybrid_fixture_mission seconds plain (eye 0) (text "t1") (text "cube") (text ".")
      (text "a.png") 0 0

abbrev hybrid_result : TaskEventLog ℕ ℤ
hybrid_result = (value_or (0, record { task_id = []; events = [] }) hybrid).1

hybrid-returns : hybrid ≡ ok (0, hybrid_result)
unfolding run_fixture_detection validate_task_mode require_cv2_with_aruco read_image stored
    write_image checksum_of local_path create_evidence_ref evidence_ref validate_for_task text_eq
    member mode_value numbered_id format_03d detected detections_of detection_of bounding_box_of
    report found_event not_found_event event_envelope event_error require_enum
    run_hybrid_fixture_mission simulation_task vision_task make_task run_simulated_mission
    reject_mode append_events simulated_event append last_sequence is_terminal first_found
    is_object_found detect_at hybrid_log append_hybrid hybrid_event validate
hybrid-returns = refl

-- The fixture has no marker.
run_hybrid_fixture_mission-ok_example :
    (validate hybrid_result ≡ ok tt)
    × ((t : EventType) × ((t ≡ EventType.object_found) ⊎ (t ≡ EventType.object_not_found))
        × (types hybrid_result.events ≡ hybrid_types t approved_success_event_sequence))
run_hybrid_fixture_mission-ok_example =
    run_hybrid_fixture_mission-ok seconds plain (eye 0) (text "t1") (text "cube") (text ".")
      (text "a.png") 0 0 0 hybrid_result hybrid-returns

abbrev live_demo : Result (Log ℤ seconds)
live_demo =
    run_physical_demo ℤ seconds (text "t1") (text "VALERA-CUBE-001") (pos 0) true (text ".")
      list_confirm agreed none (some 100) 0 (live_probe_runner seconds plain (eye 7) 0 0)

abbrev pub live_log : Log ℤ seconds
live_log = value_or (record { task_id = []; events = [] }) live_demo

-- The camera's probe at the one call of the run.
camera-IsProbe :
    IsProbe ℤ seconds
      (live_probe_runner seconds plain (eye 7) 0 0)
      (text "t1")
      (text "VALERA-CUBE-001")
      (pos 0)
      (text ".")
      7
      (text "t1-physical-demo")
      (occurred_at ℤ seconds 100 7)
unfolding run_fixture_detection validate_task_mode require_cv2_with_aruco read_image stored
    write_image checksum_of local_path create_evidence_ref evidence_ref validate_for_task text_eq
    member mode_value numbered_id format_03d detected detections_of detection_of bounding_box_of
    report found_event not_found_event event_envelope event_error require_enum live_probe_runner
    run_live_camera_marker_probe capture_live_camera_frame require_frame probe_task make_task
    is_terminal occurred_at
camera-IsProbe = record {
  event = value_or (blank.1) (
      live_probe_runner seconds plain (eye 7) 0 0 (text "t1") (text "VALERA-CUBE-001") (pos 0) true
        (text ".") 7 (text "t1-physical-demo") (occurred_at ℤ seconds 100 7));
  answers = refl;
  of_task = refl;
  numbered = refl;
  unended = refl;
}

-- The operator stops at the second step.
run_physical_demo_total_example :
    (log : Log ℤ seconds) × (run_physical_demo ℤ seconds
        (text "t1")
        (text "VALERA-CUBE-001")
        (pos 0)
        true
        (text ".")
        list_confirm
        (true ∷ false ∷ [])
        none
        (some 100)
        0
        (live_probe_runner seconds plain (eye 7) 0 0)
      ≡ ok log)
run_physical_demo_total_example =
    run_physical_demo_total ℤ seconds (text "t1") (text "VALERA-CUBE-001") (pos 0) (text ".")
      list_confirm (true ∷ false ∷ []) none (some 100) 0
      (live_probe_runner seconds plain (eye 7) 0 0) refl refl camera-IsProbe

live_demo-returns : live_demo ≡ ok live_log
unfolding run_fixture_detection validate_task_mode require_cv2_with_aruco read_image stored
    write_image checksum_of local_path create_evidence_ref evidence_ref validate_for_task text_eq
    member mode_value numbered_id format_03d detected detections_of detection_of bounding_box_of
    report found_event not_found_event event_envelope event_error require_enum run_physical_demo
    physical_task make_task mission append_steps append_step physical_event last_sequence append
    after_probe confirm_steps list_confirm finish_completed validate is_terminal live_probe_runner
    run_live_camera_marker_probe capture_live_camera_frame require_frame probe_task
live_demo-returns = refl

live_demo-completed : last_type task_created (types live_log.events) ≡ task_completed
unfolding run_fixture_detection validate_task_mode require_cv2_with_aruco read_image stored
    write_image checksum_of local_path create_evidence_ref evidence_ref validate_for_task text_eq
    member mode_value numbered_id format_03d detected detections_of detection_of bounding_box_of
    report found_event not_found_event event_envelope event_error require_enum run_physical_demo
    physical_task make_task mission append_steps append_step physical_event last_sequence append
    after_probe confirm_steps list_confirm finish_completed validate is_terminal live_probe_runner
    run_live_camera_marker_probe capture_live_camera_frame require_frame probe_task
live_demo-completed = refl

run_physical_demo-IsProbed_example :
    (types live_log.events ≡ physical_demo_success_event_sequence)
    × (all_confirmed list_confirm operator_confirmations agreed ≡ true)
    × ((d : Detection) × (ds : List Detection) × (e : EventEnvelope ℕ ℤ) × (before : List
          (EventEnvelope ℕ ℤ))
        × (after : List (EventEnvelope ℕ ℤ)) × (live_log.events ≡ before ++ e ∷ after)
        × (types before ≡ opening_event_types)
        × IsProbed seconds plain
            (eye 7)
            0
            (pos 0)
            (text "t1")
            (text "VALERA-CUBE-001")
            (text ".")
            (text "t1-physical-demo")
            7
            (d ∷ ds)
            e)
run_physical_demo-IsProbed_example =
    run_physical_demo-IsProbed seconds plain (eye 7) (text "t1") (text "VALERA-CUBE-001") (pos 0)
      true (text ".") list_confirm agreed none (some 100) 0 0 0 live_log live_demo-returns
      live_demo-completed
