-- ===== src/Missions/Smoke.antt =====
-- scripts/smoke_hybrid_demo.py: the checks of a hybrid run, from the log and the dashboard's summary
-- on. The disk, as the run has left it, is a parameter.
use valera_control_tower.Base.{
  ℕ, ◌==◌, Bool, true, false, ◌||◌, not, Option, none, some, List, [], ◌∷◌, map, Text, text,
  text_eq, length, Result, ok, raised, ◌>>=◌, ◌>>◌, raise_if, runtime_error, if◌then◌else◌,
}
use valera_control_tower.Wire.{Json, Fields}
use valera_control_tower.Tasks.Models.{ExecutionMode, real_vision}
use valera_control_tower.Tasks.Evidence.{PurePosixPaths, EvidenceRef, local_path}
use valera_control_tower.Tasks.Events.{EventEnvelope}
use valera_control_tower.Missions.Hybrid.{is_object_found}
use valera_control_tower.OutputCheck.{Outside, get}
use valera_control_tower.Dashboard.{DashboardSummary}

pub record SmokeResult (FilePath : Type 0) : Type 0 where
  pub task_id : Text
  pub final_status : Text
  pub event_count : ℕ
  pub replay_path : FilePath
  pub dashboard_path : FilePath
  pub evidence_paths : List FilePath

-- `_require`
unfoldable pub require_met : Bool → Result (Unit {0})
require_met condition = raise_if (not condition) runtime_error

-- `mode == ExecutionMode.REAL_VISION`
unfoldable pub is_real_vision : ExecutionMode → Bool
is_real_vision real_vision = true
is_real_vision _ = false

-- `("marker_id", "detection_score", "corners", "bounding_box")`
abbrev pub marker_fields : List Text
marker_fields =
    text "marker_id" ∷ text "detection_score" ∷ text "corners" ∷ text "bounding_box" ∷ []

module _ {F : Type 0} where
  abbrev is_present : Option (Json F) → Bool
  is_present none = false
  is_present (some x) = true

  -- The loop over the names of the fields.
  unfoldable pub require_fields : List Text → Fields F → Result (Unit {0})
  unfolding require_met get
  require_fields [] payload = ok tt
  require_fields (name ∷ names) payload = do
    require_met (is_present (get name payload))
    require_fields names payload

module _ {D F : Type 0} where
  -- `_object_found_event`
  unfoldable pub object_found_event : List (EventEnvelope D F) → Result (EventEnvelope D F)
  unfolding is_object_found
  object_found_event [] = raised runtime_error
  object_found_event (event ∷ events) =
      let rest = object_found_event events in
      if is_object_found event.event_type then ok event else rest

  -- The checks of the object.found event. Every reference has the attribute "relative_path".
  unfoldable pub check_object_found : EventEnvelope D F → Result (Unit {0})
  unfolding require_met is_real_vision require_fields
  check_object_found object_found = do
    require_met (is_real_vision object_found.mode)
    require_fields marker_fields object_found.payload
    require_met (length object_found.evidence_refs == 2)

module _ (F : Type 0) (pl : PurePosixPaths) (out : Outside pl.FilePath F) where
  open pl use {FilePath}
  open out use {is_file, read_text, name_ends_with, occurs_in}

  -- `any(path.name.endswith(suffix) for path in paths)`
  unfoldable pub any_ends_with : Text → List FilePath → Bool
  any_ends_with suffix [] = false
  any_ends_with suffix (path ∷ paths) = name_ends_with path suffix || any_ends_with suffix paths

  -- The loop over the files.
  unfoldable pub require_files : List FilePath → Result (Unit {0})
  unfolding require_met
  require_files [] = ok tt
  require_files (path ∷ paths) = do require_met (is_file path); require_files paths

  -- The checks of the evidence files.
  unfoldable pub check_evidence : FilePath → List EvidenceRef → Result (List FilePath)
  unfolding require_met any_ends_with require_files local_path
  check_evidence output_root refs =
      let paths = map (λ ref. local_path pl ref output_root) refs in
      do
        require_met (any_ends_with (text "-raw.png") paths)
        require_met (any_ends_with (text "-annotated.png") paths)
        require_files paths
        ok paths

  -- The checks of the page.
  unfoldable pub check_page : FilePath → Result (Unit {0})
  unfolding require_met
  check_page dashboard_path = do
    require_met (occurs_in (text "href=\"../../evidence/") (read_text dashboard_path))
    require_met (occurs_in (text "<img ") (read_text dashboard_path))
    require_met (occurs_in (text "class=\"evidence-preview\"") (read_text dashboard_path))
    require_met (occurs_in (text "task.completed") (read_text dashboard_path))

  -- The files of an object.found event, the page, and the result.
  unfoldable pub check_files :
      FilePath
      → FilePath
      → FilePath
      → DashboardSummary
      → List EvidenceRef
      → Result (SmokeResult FilePath)
  unfolding check_evidence check_page
  check_files output_root replay_path dashboard_path summary refs = do
    paths ← check_evidence output_root refs
    check_page dashboard_path
    ok (record {
      task_id = summary.task_id;
      final_status = summary.final_status;
      event_count = summary.event_count;
      replay_path = replay_path;
      dashboard_path = dashboard_path;
      evidence_paths = paths;
    })

  -- `run_hybrid_demo_smoke` from the rendering of the dashboard on.
  unfoldable pub check_smoke :
      {D : Type 0}
      → FilePath
      → FilePath
      → FilePath
      → DashboardSummary
      → List (EventEnvelope D F)
      → Result (SmokeResult FilePath)
  unfolding require_met object_found_event check_object_found check_files
  check_smoke output_root replay_path dashboard_path summary events = do
    require_met (is_file replay_path)
    require_met (is_file dashboard_path)
    require_met (text_eq summary.final_status (text "completed"))
    require_met (summary.event_count == 14)
    found ← object_found_event events
    check_object_found found
    check_files output_root replay_path dashboard_path summary found.evidence_refs
