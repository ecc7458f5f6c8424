-- ===== src/Tests/Missions.antt =====
-- The missions at concrete inputs. A datetime is the seconds since the start of 2026-07-02.
use valera_control_tower.Base.{
  ℕ, ◌+◌, ◌*◌, ◌≡◌, refl, Bool, true, false, none, some, List, [], ◌∷◌, ◌++◌, text, text_eq, ℤ, pos,
  Result, ok, raised,
}
use valera_control_tower.Wire.{end}
use valera_control_tower.Tasks.Models.{
  Task, make_task, require_enum, pickup_zone, delivery_zone, simulation, real_vision,
}
use valera_control_tower.Tasks.Events.{
  Datetimes, EventType, task_failed, object_found, EventEnvelope, event_envelope, event_error,
}
use valera_control_tower.Tasks.EventLog.{TaskEventLog, validate, last_sequence, append, is_terminal}
use valera_control_tower.Missions.{format_03d, numbered_id}
use valera_control_tower.Missions.Open.{types}
use valera_control_tower.Missions.Simulated.{approved_success_event_sequence, run_simulated_mission}
use valera_control_tower.Missions.SimulatedRun.{sequences, numbers, run_simulated_mission_total}
use valera_control_tower.Missions.Physical.{
  operator_confirmations, opening_event_types, Log, physical_task, mission, append_steps,
  append_step, physical_event, after_probe, confirm_steps, finish_completed, finish_failed,
  failed_event, list_confirm, ProbeRunner, run_physical_demo, physical_demo_success_event_sequence,
  or_text, occurred_at,
}
use valera_control_tower.Missions.PhysicalTrace.{ending_types, run_physical_demo-ok}
use valera_control_tower.Missions.PhysicalSafety.{all_confirmed, run_physical_demo-confirmed}

abbrev pub seconds : Datetimes
seconds = record {
  Datetime = ℕ;
  utc = λ year month day hour minute. hour * 3600 + minute * 60;
  is_naive = λ d. false;
  with_utc = λ d. d;
  add_seconds = λ d n. d + n;
  isoformat = λ d. format_03d d;
}

abbrev pub task : Task
task = record {
  task_id = text "t1";
  object_id = text "cube";
  pickup_zone = pickup_zone;
  delivery_zone = delivery_zone;
  mode = simulation;
  description = [];
}

run_simulated_mission_total_example :
    (log : TaskEventLog ℕ ℤ) × (run_simulated_mission ℤ seconds task ≡ ok log)
    × (validate log ≡ ok tt)
    × (types log.events ≡ approved_success_event_sequence)
    × (sequences log.events ≡ numbers 1 approved_success_event_sequence)
run_simulated_mission_total_example = run_simulated_mission_total ℤ seconds task refl refl

-- A probe that finds the object.
abbrev finds : ProbeRunner ℤ seconds
finds task_id object_id camera_index enabled root sequence correlation time = ok (record {
  event_id = text "e7";
  task_id = task_id;
  correlation_id = correlation;
  sequence = sequence;
  event_type = object_found;
  occurred_at = time;
  source = text "valera.live_camera_probe";
  mode = real_vision;
  payload = end;
  schema_version = text "1.0";
  evidence_refs = [];
  error = none;
})

abbrev demo : List Bool → Result (Log ℤ seconds)
demo answers =
    run_physical_demo ℤ seconds (text "t1") (text "cube") (pos 0) true [] list_confirm answers none
      (some 100) 0 finds

abbrev returned : Result (Log ℤ seconds) → Log ℤ seconds
returned (ok log) = log
returned (raised e) = record { task_id = []; events = [] }

abbrev pub agreed : List Bool
agreed = true ∷ true ∷ true ∷ true ∷ true ∷ []

demo-agreed : demo agreed ≡ ok (returned (demo agreed))
unfolding run_physical_demo physical_task make_task require_enum mission append_steps append_step
    physical_event event_envelope numbered_id last_sequence append text_eq after_probe confirm_steps
    list_confirm finish_completed finish_failed failed_event event_error validate is_terminal
demo-agreed = refl

-- The operator stops at the second step.
demo_cancelled :
    types (returned (demo (true ∷ false ∷ []))).events
    ≡ opening_event_types ++ object_found ∷ EventType.grasp_started ∷ task_failed ∷ []
unfolding run_physical_demo physical_task make_task require_enum mission append_steps append_step
    physical_event event_envelope numbered_id last_sequence append text_eq after_probe confirm_steps
    list_confirm finish_completed finish_failed failed_event event_error validate is_terminal
demo_cancelled = refl

run_physical_demo-confirmed_example :
    (types (returned (demo agreed)).events ≡ physical_demo_success_event_sequence)
    × (all_confirmed list_confirm operator_confirmations agreed ≡ true)
unfolding run_physical_demo physical_task make_task require_enum mission append_steps append_step
    physical_event event_envelope numbered_id last_sequence append text_eq after_probe confirm_steps
    list_confirm finish_completed finish_failed failed_event event_error validate is_terminal
run_physical_demo-confirmed_example =
    run_physical_demo-confirmed ℤ seconds (text "t1") (text "cube") (pos 0) true [] list_confirm
      agreed none (some 100) 0 finds (returned (demo agreed)) demo-agreed refl

run_physical_demo-ok_example :
    (true ≡ true)
    × (validate (returned (demo agreed)) ≡ ok tt)
    × ((detection : EventEnvelope ℕ ℤ) × (before : List (EventEnvelope ℕ ℤ)) × (after : List
          (EventEnvelope ℕ ℤ))
        × (finds
              (text "t1")
              (text "cube")
              (pos 0)
              true
              []
              7
              (or_text none (text "t1" ++ text "-physical-demo"))
              (occurred_at ℤ seconds 100 7)
            ≡ ok detection)
        × ((returned (demo agreed)).events ≡ before ++ detection ∷ after)
        × (types before ≡ opening_event_types)
        × (types (returned (demo agreed)).events
            ≡ opening_event_types
              ++ detection.event_type ∷ ending_types list_confirm agreed detection.event_type))
run_physical_demo-ok_example =
    run_physical_demo-ok ℤ seconds (text "t1") (text "cube") (pos 0) true [] list_confirm agreed
      none (some 100) 0 finds (returned (demo agreed)) demo-agreed
