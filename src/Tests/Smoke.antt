-- ===== src/Tests/Smoke.antt =====
-- The smoke checks at concrete inputs: a fixture with a marker, and one without.
use valera_control_tower.Base.{
  ℕ, ◌≡◌, refl, some, List, [], Text, text, text_eq, member, ℤ, Result, ok, raised, runtime_error,
}
use valera_control_tower.Tasks.Models.{make_task, require_enum, mode_value}
use valera_control_tower.Tasks.Evidence.{
  create_evidence_ref, evidence_ref, validate_for_task, local_path,
}
use valera_control_tower.Tasks.Events.{event_envelope, event_error, event_to_dict, event_type_value}
use valera_control_tower.Tasks.EventLog.{TaskEventLog, validate, is_terminal, append, last_sequence}
use valera_control_tower.Missions.{numbered_id, format_03d}
use valera_control_tower.Missions.Simulated.{
  run_simulated_mission, reject_mode, append_events, simulated_event,
}
use valera_control_tower.Missions.Hybrid.{
  run_hybrid_fixture_mission, simulation_task, vision_task, first_found, is_object_found, detect_at,
  hybrid_log, append_hybrid, hybrid_event,
}
use valera_control_tower.Missions.Smoke.{
  SmokeResult, require_met, is_real_vision, require_fields, object_found_event, check_object_found,
  any_ends_with, require_files, check_evidence, check_page, check_files, check_smoke,
}
use valera_control_tower.Missions.SmokeRun.{Verdict, run_hybrid_fixture_mission-smoke}
use valera_control_tower.Vision.{
  Detection, detected, run_fixture_detection, validate_task_mode, require_cv2_with_aruco,
  read_image, stored, write_image, checksum_of, report, not_found_event, found_event, detections_of,
  detection_of, bounding_box_of, found_marker_payload,
}
use valera_control_tower.OutputCheck.{get, is_text}
use valera_control_tower.OutputCheck.Sound.{exported}
use valera_control_tower.Dashboard.{
  DashboardSummary, summarize_events, shown_or_unknown, final_status,
}
use valera_control_tower.Tests.Missions.{seconds}
use valera_control_tower.Tests.Vision.{plain, eye, value_or}
use valera_control_tower.Tests.OutputCheck.{disk}

abbrev hybrid_run : ℕ → Result (ℕ × TaskEventLog ℕ ℤ)
hybrid_run image =
    run_hybrid_fixture_mission seconds plain (eye image) (text "t1") (text "cube") (text ".")
      (text "a.png") 0 0

abbrev run_log : ℕ → TaskEventLog ℕ ℤ
run_log image = (value_or (0, record { task_id = []; events = [] }) (hybrid_run image)).1

abbrev summary : ℕ → DashboardSummary
summary image = summarize_events (λ x. []) (exported seconds (run_log image).events)

abbrev smoke : ℕ → Result (SmokeResult Text)
smoke image =
    check_smoke ℤ plain disk (text ".") (text "r.json") (text "d.html") (summary image)
      (run_log image).events

hybrid_run-returns : hybrid_run 7 ≡ ok (0, run_log 7)
unfolding run_fixture_detection validate_task_mode require_cv2_with_aruco read_image stored
    write_image checksum_of local_path create_evidence_ref evidence_ref validate_for_task text_eq
    member mode_value numbered_id format_03d detected detections_of detection_of bounding_box_of
    report found_event not_found_event event_envelope event_error require_enum
    run_hybrid_fixture_mission simulation_task vision_task make_task run_simulated_mission
    reject_mode append_events simulated_event append last_sequence is_terminal first_found
    is_object_found detect_at hybrid_log append_hybrid hybrid_event validate
hybrid_run-returns = refl

run_hybrid_fixture_mission-smoke_example :
    ((summary 7).final_status ≡ text "completed")
    × ((summary 7).event_count ≡ 14)
    × ((image : ℕ) × (ds : List Detection) × (some 7 ≡ some image)
        × (detected seconds plain (eye 7) image ≡ ok ds)
        × Verdict seconds plain
            (eye 7)
            disk
            (text ".")
            (text "r.json")
            (text "d.html")
            (text "t1")
            (summary 7)
            (run_log 7).events
            ds)
run_hybrid_fixture_mission-smoke_example =
    run_hybrid_fixture_mission-smoke seconds plain (eye 7) disk (text ".") (text "r.json")
      (text "d.html") (text "t1") (text "cube") (text ".") (text "a.png") 0 0 0 (run_log 7)
      (λ x. []) hybrid_run-returns refl refl

abbrev blank_result : SmokeResult Text
blank_result = record {
  task_id = [];
  final_status = [];
  event_count = 0;
  replay_path = [];
  dashboard_path = [];
  evidence_paths = [];
}

smoke_passes : smoke 7 ≡ ok (value_or blank_result (smoke 7))
unfolding run_fixture_detection validate_task_mode require_cv2_with_aruco read_image stored
    write_image checksum_of local_path create_evidence_ref evidence_ref validate_for_task text_eq
    member mode_value numbered_id format_03d detected detections_of detection_of bounding_box_of
    report found_event not_found_event event_envelope event_error require_enum
    run_hybrid_fixture_mission simulation_task vision_task make_task run_simulated_mission
    reject_mode append_events simulated_event append last_sequence is_terminal first_found
    is_object_found detect_at hybrid_log append_hybrid hybrid_event validate check_smoke require_met
    is_real_vision require_fields object_found_event check_object_found any_ends_with require_files
    check_evidence check_page check_files summarize_events shown_or_unknown final_status get is_text
    event_to_dict event_type_value found_marker_payload
smoke_passes = refl

smoke_fails : smoke 0 ≡ raised runtime_error
unfolding run_fixture_detection validate_task_mode require_cv2_with_aruco read_image stored
    write_image checksum_of local_path create_evidence_ref evidence_ref validate_for_task text_eq
    member mode_value numbered_id format_03d detected detections_of detection_of bounding_box_of
    report found_event not_found_event event_envelope event_error require_enum
    run_hybrid_fixture_mission simulation_task vision_task make_task run_simulated_mission
    reject_mode append_events simulated_event append last_sequence is_terminal first_found
    is_object_found detect_at hybrid_log append_hybrid hybrid_event validate check_smoke require_met
    is_real_vision require_fields object_found_event check_object_found any_ends_with require_files
    check_evidence check_page check_files summarize_events shown_or_unknown final_status get is_text
    event_to_dict event_type_value found_marker_payload
smoke_fails = refl
