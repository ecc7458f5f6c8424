-- ===== src/Missions/SmokeRun.antt =====
-- scripts/smoke_hybrid_demo.py: the checks on what a hybrid mission and its dashboard give.
use valera_control_tower.Base.{
  ℕ, ◌≡◌, refl, sym, ap, ◌∙◌, true, false, arith, some, List, [], ◌∷◌, All, Text, text, text_eq,
  length, ok, raised, runtime_error, bind-ok, ok-injective,
}
use valera_control_tower.Wire.{Json, integer}
use valera_control_tower.Tasks.Models.{Task}
use valera_control_tower.Tasks.Evidence.{PurePosixPaths}
use valera_control_tower.Tasks.Events.{Datetimes, EventType, object_found, EventEnvelope}
use valera_control_tower.Tasks.EventLog.{TaskEventLog}
use valera_control_tower.Missions.Open.{types}
use valera_control_tower.Missions.PhysicalSafety.{last_type}
use valera_control_tower.Missions.Simulated.{approved_success_event_sequence}
use valera_control_tower.Missions.Hybrid.{
  is_object_found, hybrid_event, simulation_task, detect_at, run_hybrid_fixture_mission,
}
use valera_control_tower.Missions.HybridRun.{
  hybrid_types, has_found, hybrid_events, hybrid_events-types,
}
use valera_control_tower.Missions.HybridTotal.{
  run_hybrid_fixture_mission_total, simulation_task-nonempty, with_detection-ok,
}
use valera_control_tower.Missions.Smoke.{
  require_met, is_real_vision, require_fields, object_found_event, check_object_found, check_files,
  check_smoke,
}
use valera_control_tower.OutputCheck.{Outside, get}
use valera_control_tower.OutputCheck.Sound.{exported}
use valera_control_tower.Dashboard.{DashboardSummary, summarize_events}
use valera_control_tower.Dashboard.Summary.{summarize_events-exported}
use valera_control_tower.Vision.{Cv2, Detection, detected, found_marker_payload, vision_source}
use valera_control_tower.Vision.Outcome.{BelongsTo, IsOutcome, run_fixture_detection-IsOutcome}

module _ {D F : Type 0} where
  object_found_event-found :
      (v : EventEnvelope D F) (es : List (EventEnvelope D F))
      → v.event_type ≡ object_found
      → has_found (types es) ≡ true
      → object_found_event (hybrid_events v es) ≡ ok v
  unfolding object_found_event hybrid_event is_object_found
  object_found_event-found v [] h k = cc
  object_found_event-found v (e ∷ es) h k = ground (arith, object_found_event-found v es h)

  object_found_event-missing :
      (v : EventEnvelope D F) (es : List (EventEnvelope D F))
      → is_object_found v.event_type ≡ false
      → object_found_event (hybrid_events v es) ≡ raised runtime_error
  unfolding object_found_event hybrid_event
  object_found_event-missing v [] h = refl
  object_found_event-missing v (e ∷ es) h = ground (arith, object_found_event-missing v es h)

  length-types : (es : List (EventEnvelope D F)) → length (types es) ≡ length es
  length-types [] = refl
  length-types (e ∷ es) = omega (arith, length-types es)

module _ (dt : Datetimes) (pl : PurePosixPaths) (cv : Cv2 pl.FilePath) where
  open dt use {Datetime}
  open pl use {FilePath}
  open cv use {World, F, imread}

  -- The summary of the dashboard of a hybrid log.
  hybrid_summary :
      (str : Json F → Text) (t : EventType) (es : List (EventEnvelope Datetime F))
      → types es ≡ hybrid_types t approved_success_event_sequence
      → ((summarize_events str (exported dt es)).final_status ≡ text "completed")
        × ((summarize_events str (exported dt es)).event_count ≡ 14)
  unfolding is_object_found
  hybrid_summary str t [] h = cc
  hybrid_summary str t (e ∷ es) h =
      let (_, _, completed, counted) =
        summarize_events-exported dt str e es (ap (λ ts. last_type e.event_type (rest ts)) h) in
      (completed, counted ∙ sym (length-types (e ∷ es)) ∙ ap length h)
    where
      rest : List EventType → List EventType
      rest [] = []
      rest (u ∷ us) = us

  -- The checks of the event that a detection with a marker gives.
  check_object_found-outcome :
      (task : Task) (n : ℕ) (c source : Text) (d : Detection) (ds : List Detection)
      (e : EventEnvelope Datetime F)
      → IsOutcome dt pl cv task n c source (d ∷ ds) e
      → check_object_found e ≡ ok tt
  unfolding check_object_found require_met is_real_vision require_fields get text_eq
      found_marker_payload
  check_object_found-outcome task n c source d ds e o = rw (o.seen, o.reports.2, o.counted) refl

  module _ (out : Outside FilePath F) (root replay dashboard : FilePath) where
    -- The outcome of the checks for the markers in the fixture's image.
    abbrev pub Verdict :
        Text → DashboardSummary → List (EventEnvelope Datetime F) → List Detection → Type 0
    Verdict task_id summary events [] =
        check_smoke F pl out root replay dashboard summary events ≡ raised runtime_error
    Verdict task_id summary events (d ∷ ds) =
        (e : EventEnvelope Datetime F) × (object_found_event events ≡ ok e)
        × (get (text "marker_id") e.payload ≡ some (integer d.marker_id))
        × All (BelongsTo pl task_id e.event_id vision_source) e.evidence_refs
        × (check_smoke F pl out root replay dashboard summary events
            ≡ check_files F pl out root replay dashboard summary e.evidence_refs)

    check_smoke-Verdict :
        (task_id : Text) (task : Task) (n : ℕ) (c : Text) (summary : DashboardSummary)
        (es : List (EventEnvelope Datetime F)) (ds : List Detection) (e : EventEnvelope Datetime F)
        → out.is_file replay ≡ true
        → out.is_file dashboard ≡ true
        → summary.final_status ≡ text "completed"
        → summary.event_count ≡ 14
        → has_found (types es) ≡ true
        → task.task_id ≡ task_id
        → IsOutcome dt pl cv task n c vision_source ds e
        → Verdict task_id summary (hybrid_events e es) ds
    unfolding check_smoke require_met text_eq is_object_found get found_marker_payload
    check_smoke-Verdict task_id task n c summary es [] e r p s k f id o =
        rw (r, p, s, k, object_found_event-missing e es (ap is_object_found (o.reports.0))) refl
    check_smoke-Verdict task_id task n c summary es (d ∷ ds) e r p s k f id o =
        let found = object_found_event-found e es (o.reports.0) f in
        (
          e,
          found,
          ap (get (text "marker_id")) (o.reports.2),
          rw (sym id) (o.evidence),
          rw (r, p, s, k, found, check_object_found-outcome task n c vision_source d ds e o) refl,
        )

    -- The smoke run on the events of a mission with the detection `e`.
    smoke_run :
        (str : Json F → Text) (task_id : Text) (task : Task) (n : ℕ) (c : Text)
        (es events : List (EventEnvelope Datetime F)) (ds : List Detection)
        (e : EventEnvelope Datetime F)
        → out.is_file replay ≡ true
        → out.is_file dashboard ≡ true
        → types es ≡ approved_success_event_sequence
        → task.task_id ≡ task_id
        → hybrid_events e es ≡ events
        → IsOutcome dt pl cv task n c vision_source ds e
        → ((summarize_events str (exported dt events)).final_status ≡ text "completed")
          × ((summarize_events str (exported dt events)).event_count ≡ 14)
          × Verdict task_id (summarize_events str (exported dt events)) events ds
    unfolding is_object_found
    smoke_run str task_id task n c es events ds e r p shown id same o =
        let (completed, counted) =
          hybrid_summary str e.event_type (hybrid_events e es)
            (hybrid_events-types e es ∙ ap (hybrid_types e.event_type) shown) in
        rw (sym same) (
          completed,
          counted,
          check_smoke-Verdict task_id task n c
              (summarize_events str (exported dt (hybrid_events e es))) es ds e r p completed
              counted (ap has_found shown) id o,
        )

    -- For a hybrid mission that returns and whose replay and dashboard are there: the dashboard says
    -- "completed" with 14 events, whatever the fixture's image holds. The smoke checks raise
    -- RuntimeError if the image has no marker. Otherwise all of them pass up to those of the evidence
    -- files and the page, for an object.found event with the id of the first marker, whose references
    -- lie in the directory of the task.
    pub run_hybrid_fixture_mission-smoke :
        (task_id object_id : Text) (base fixture : FilePath) (now : Datetime) (world world' : World)
        (log : TaskEventLog Datetime F) (str : Json F → Text)
        → run_hybrid_fixture_mission dt pl cv task_id object_id base fixture now world
          ≡ ok (world', log)
        → out.is_file replay ≡ true
        → out.is_file dashboard ≡ true
        → ((summarize_events str (exported dt log.events)).final_status ≡ text "completed")
          × ((summarize_events str (exported dt log.events)).event_count ≡ 14)
          × ((image : cv.Image) × (ds : List Detection) × (imread world fixture ≡ some image)
              × (detected dt pl cv image ≡ ok ds)
              × Verdict task_id (summarize_events str (exported dt log.events)) log.events ds)
    unfolding run_hybrid_fixture_mission detect_at
    run_hybrid_fixture_mission-smoke task_id object_id base fixture now world world' log str h r p =
        let (movement, made, rest) = bind-ok (simulation_task task_id object_id) _ h in
        let (named, object_named) = simulation_task-nonempty task_id object_id movement made in
        let (task, found, es, _, _, _, _, _, id, at, shown, numbered, valid, equation) =
          run_hybrid_fixture_mission_total dt pl cv task_id object_id base fixture now world named
            object_named in
        let (w, e, seen, last) =
          with_detection-ok dt pl cv task_id es
            (detect_at dt pl cv task fixture base now found world) (sym equation ∙ h) in
        let same : hybrid_events e es ≡ log.events = ap (λ q. q.1.events) (ok-injective last) in
        let (_, (image, ds, opened, detection, o)) =
          run_fixture_detection-IsOutcome dt pl cv task fixture _ _ base _ now vision_source _ world
            w e seen in
        let (completed, counted, verdict) =
          smoke_run str task_id task _ _ es log.events ds e r p shown id same o in
        (completed, counted, (image, ds, opened, detection, verdict))
