-- ===== src/Tests/OutputCheck.antt =====
-- The check of the output of the live physical demo of Tests/Vision.antt.
use valera_control_tower.Base.{
  ℕ, ◌≡◌, refl, Bool, true, false, ◌||◌, ◌==◌, some, List, [], ◌∷◌, Text, text, text_eq, member, ℤ,
  pos, Result, ok, raised,
}
use valera_control_tower.Wire.{array}
use valera_control_tower.Tasks.Models.{make_task, require_enum, mode_value}
use valera_control_tower.Tasks.Evidence.{
  create_evidence_ref, evidence_ref, validate_for_task, local_path, evidence_to_dict,
}
use valera_control_tower.Tasks.Events.{event_envelope, event_error, event_to_dict, event_type_value}
use valera_control_tower.Tasks.EventLog.{validate, is_terminal, append, last_sequence}
use valera_control_tower.Missions.{numbered_id, format_03d, base_payload, merge}
use valera_control_tower.Missions.Open.{types}
use valera_control_tower.Missions.SimulatedRun.{sequences, numbers}
use valera_control_tower.Missions.Physical.{
  physical_task, mission, append_steps, append_step, physical_event, after_probe, confirm_steps,
  finish_completed, list_confirm, run_physical_demo, physical_payload,
  physical_demo_success_event_sequence,
}
use valera_control_tower.Vision.{
  run_fixture_detection, validate_task_mode, require_cv2_with_aruco, read_image, stored,
  write_image, checksum_of, detected, detections_of, detection_of, bounding_box_of, report,
  found_event, not_found_event, found_marker_payload,
}
use valera_control_tower.Vision.LiveCamera.{
  live_probe_runner, run_live_camera_marker_probe, capture_live_camera_frame, require_frame,
  probe_task,
}
use valera_control_tower.OutputCheck.{
  Outside, check_physical_demo_output, require, parsed_replay, require_list, event_objects,
  check_events, sequences_from, is_number, types_are, get, is_text, is_completed, occurred_in_order,
  require_string, check_found, require_object, validate_evidence_refs, check_refs, check_ref,
  validate_dashboard,
}
use valera_control_tower.OutputCheck.Sound.{export}
use valera_control_tower.OutputCheck.Passed.{check_physical_demo_output-export}
use valera_control_tower.Tests.Missions.{seconds}
use valera_control_tower.Tests.Vision.{plain, live_log}

abbrev ends_with : Text → Text → Bool
ends_with [] p = text_eq [] p
ends_with (c ∷ s) p = let rest = ends_with s p in text_eq (c ∷ s) p || rest

abbrev is_whole : ℤ → ℕ → Bool
is_whole (pos m) n = m == n
is_whole _ n = false

-- A disk on which every file exists and each replay is the export of the demo's log.
abbrev pub disk : Outside Text ℤ
disk = record {
  Instant = ℕ;
  is_file = λ p. true;
  read_text = λ p. [];
  loads = λ s. some (array (export seconds live_log.events));
  float_is = is_whole;
  instant = λ s. some 0;
  before = λ a b. ok false;
  has_suffix = ends_with;
  name_ends_with = ends_with;
  occurs_in = λ s t. true;
}

abbrev files_of : Result (ℕ × List (Text × Bool × Bool)) → List (Text × Bool × Bool)
files_of (ok (n, files)) = files
files_of (raised e) = []

abbrev check : Result (ℕ × List (Text × Bool × Bool))
check = check_physical_demo_output ℤ plain disk (text ".") (text "t1") 7

check-passes : check ≡ ok (13, files_of check)
unfolding run_fixture_detection validate_task_mode require_cv2_with_aruco read_image stored
    write_image checksum_of local_path create_evidence_ref evidence_ref validate_for_task text_eq
    member mode_value numbered_id format_03d detected detections_of detection_of bounding_box_of
    report found_event not_found_event event_envelope event_error require_enum run_physical_demo
    physical_task make_task mission append_steps append_step physical_event last_sequence append
    after_probe confirm_steps list_confirm finish_completed validate is_terminal live_probe_runner
    run_live_camera_marker_probe capture_live_camera_frame require_frame probe_task
    check_physical_demo_output require parsed_replay require_list event_objects check_events
    sequences_from is_number types_are get is_text is_completed occurred_in_order require_string
    check_found require_object validate_evidence_refs check_refs check_ref validate_dashboard
    event_to_dict event_type_value evidence_to_dict found_marker_payload physical_payload
    base_payload merge
check-passes = refl

check_physical_demo_output-export_example :
    (types live_log.events ≡ physical_demo_success_event_sequence)
    × (sequences live_log.events ≡ numbers 1 physical_demo_success_event_sequence)
check_physical_demo_output-export_example =
    check_physical_demo_output-export ℤ plain disk seconds (text ".") (text "t1") 7 13
      (files_of check) live_log.events refl check-passes
