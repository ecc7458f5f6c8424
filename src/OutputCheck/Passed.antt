-- ===== src/OutputCheck/Passed.antt =====
-- scripts/check_physical_demo_output.py: a run of the check that passes, from the files on.
use valera_control_tower.Base.{
  ℕ, ◌==◌, ◌≡◌, sym, ap, ◌∙◌, Bool, true, Option, none, some, List, All, Text, text, length, ok,
  bind-ok, then-ok, ok-injective,
}
use valera_control_tower.Wire.{Json, Items, Fields, array}
use valera_control_tower.Tasks.Evidence.{PurePosixPaths}
use valera_control_tower.Tasks.Events.{Datetimes, EventEnvelope}
use valera_control_tower.Missions.Open.{types}
use valera_control_tower.Missions.SimulatedRun.{sequences, numbers}
use valera_control_tower.Missions.Physical.{physical_demo_success_event_sequence}
use valera_control_tower.Vision.LiveCamera.{live_camera_source}
use valera_control_tower.OutputCheck.{
  Outside, count_items, raw_count, annotated_count, expected_event_types, get, is_text, is_number,
  event_objects, require_list, require_object, types_are, sequences_from, last_event, is_completed,
  occurred_in_order, event_at, check_refs, validate_evidence_refs, validate_dashboard, replay_path,
  dashboard_path, parsed_replay, check_found, check_events, check_physical_demo_output,
}
use valera_control_tower.OutputCheck.Sound.{
  IsEvidenceFile, required, equal, check_refs-IsEvidenceFile, expected_event_types_lem, exported,
  export, export-event_objects, types_are-exported, sequences_from-exported,
}

parsed_replay-ok :
    (F : Type 0) (pl : PurePosixPaths) (out : Outside pl.FilePath F) (o : Option (Json F))
    (replay : Json F)
    → parsed_replay F pl out o ≡ ok replay
    → o ≡ some replay
unfolding parsed_replay
parsed_replay-ok F pl out none replay h = cc
parsed_replay-ok F pl out (some r) replay h = ap some (ok-injective h)

require_list-ok :
    {F : Type 0} (replay : Json F) (items : Items F)
    → require_list (some replay) ≡ ok items
    → replay ≡ array items
unfolding require_list
require_list-ok (array items') items h = ap array (ok-injective h)
require_list-ok _ items h = cc

module _ (F : Type 0) (pl : PurePosixPaths) (out : Outside pl.FilePath F) where
  open pl use {FilePath, join}
  open out use {is_file, read_text, loads}

  -- The evidence of a replay that passes: two files, one of them raw and one annotated.
  pub record IsEvidence (root : FilePath) (files : List (FilePath × Bool × Bool)) : Type 0 where
    pub safe : All (IsEvidenceFile pl out root) files
    pub two : length files ≡ 2
    pub one_raw : raw_count F pl out files ≡ 1
    pub one_annotated : annotated_count F pl out files ≡ 1

  validate_evidence_refs-IsEvidence :
      (root : FilePath) (refs : Items F) (files : List (FilePath × Bool × Bool))
      → count_items refs ≡ 2
      → validate_evidence_refs F pl out root refs ≡ ok files
      → IsEvidence root files
  unfolding validate_evidence_refs
  validate_evidence_refs-IsEvidence root refs files n h =
      let (fs, checked, h1) = bind-ok (check_refs F pl out root refs) _ h in
      let (r, h2) = required (raw_count F pl out fs == 1) _ h1 in
      let (a, h3) = required (annotated_count F pl out fs == 1) _ h2 in
      let same : fs ≡ files = ok-injective h3 in
      let (all, counted) = check_refs-IsEvidenceFile F pl out root refs fs checked in
      rw (sym same) (record {
        safe = all;
        two = counted ∙ n;
        one_raw = equal _ _ r;
        one_annotated = equal _ _ a;
      })

  check_found-IsEvidence :
      (root : FilePath) (n : ℕ) (e : Fields F) (files : List (FilePath × Bool × Bool))
      → check_found F pl out root n e ≡ ok files
      → IsEvidence root files
  unfolding check_found
  check_found-IsEvidence root n e files h =
      let (_, h1) = required (is_text (text "object.found") (get (text "event_type") e)) _ h in
      let (_, h2) = required (is_text live_camera_source (get (text "source") e)) _ h1 in
      let (_, h3) = required (is_text (text "real_vision") (get (text "mode") e)) _ h2 in
      let (p, _, h4) = bind-ok (require_object (get (text "payload") e)) _ h3 in
      let (_, h5) = required (is_text (text "VALERA-CUBE-001") (get (text "object_id") p)) _ h4 in
      let (_, h6) = required (is_number F pl out n (get (text "marker_id") p)) _ h5 in
      let (_, h7) = required (is_number F pl out 1 (get (text "detection_score") p)) _ h6 in
      let (_, h8) = required (is_text (text "found") (get (text "status") p)) _ h7 in
      let (refs, _, h9) = bind-ok (require_list (get (text "evidence_refs") e)) _ h8 in
      let (c, h10) = required (count_items refs == 2) _ h9 in
      validate_evidence_refs-IsEvidence root refs files (equal _ _ c) h10

  check_events-ok :
      (root : FilePath) (n : ℕ) (es : List (Fields F)) (files : List (FilePath × Bool × Bool))
      → check_events F pl out root n es ≡ ok files
      → (sequences_from F pl out 1 es ≡ true)
        × (types_are expected_event_types es ≡ true)
        × IsEvidence root files
  unfolding check_events
  check_events-ok root n es files h =
      let (s, h1) = required (sequences_from F pl out 1 es) _ h in
      let (t, h2) = required (types_are expected_event_types es) _ h1 in
      let (_, h3) =
        required (is_text (text "task.completed") (get (text "event_type") (last_event es))) _ h2 in
      let (_, h4) = required (is_completed (last_event es)) _ h3 in
      let (b, _, h5) = bind-ok (occurred_in_order F pl out none es) _ h4 in
      let (_, h6) = required b _ h5 in
      (s, t, check_found-IsEvidence root n (event_at 6 es) files h6)

  pub check_physical_demo_output-ok :
      (root : FilePath) (task_id : Text) (n count : ℕ) (files : List (FilePath × Bool × Bool))
      → check_physical_demo_output F pl out root task_id n ≡ ok (count, files)
      → (items : Items F) × (es : List (Fields F)) × (loads
            (read_text (replay_path F pl out root task_id))
          ≡ some (array items))
        × (event_objects items ≡ ok es)
        × (count ≡ 13)
        × (sequences_from F pl out 1 es ≡ true)
        × (types_are expected_event_types es ≡ true)
        × IsEvidence root files
  unfolding check_physical_demo_output
  check_physical_demo_output-ok root task_id n count files h =
      let replay_file = replay_path F pl out root task_id in
      let dashboard_file = dashboard_path F pl out root task_id in
      let (_, h1) = required (is_file replay_file) _ h in
      let (_, h2) = required (is_file dashboard_file) _ h1 in
      let (replay, read, h3) =
        bind-ok (parsed_replay F pl out (loads (read_text replay_file))) _ h2 in
      let (items, listed, h4) = bind-ok (require_list (some replay)) _ h3 in
      let (c, h5) = required (count_items items == 13) _ h4 in
      let (es, objects, h6) = bind-ok (event_objects items) _ h5 in
      let (fs, checked, h7) = bind-ok (check_events F pl out root n es) _ h6 in
      let same : (count_items items, fs) ≡ (count, files) =
        ok-injective (then-ok (validate_dashboard F pl out dashboard_file) _ h7) in
      let (s, t, evidence) = check_events-ok root n es fs checked in
      (
        items,
        es,
        parsed_replay-ok F pl out _ replay read ∙ ap some (require_list-ok replay items listed),
        objects,
        sym (ap (λ p. p.0) same) ∙ equal _ _ c,
        s,
        t,
        rw (sym (ap (λ p. p.1) same)) evidence,
      )

  -- Where the replay file holds the export of a log's events and the check passes, the events show
  -- exactly the physical demo's success sequence, numbered from 1.
  pub check_physical_demo_output-export :
      (dt : Datetimes) (root : FilePath) (task_id : Text) (n count : ℕ)
      (files : List (FilePath × Bool × Bool)) (es : List (EventEnvelope dt.Datetime F))
      → loads (read_text (replay_path F pl out root task_id)) ≡ some (array (export dt es))
      → check_physical_demo_output F pl out root task_id n ≡ ok (count, files)
      → (types es ≡ physical_demo_success_event_sequence)
        × (sequences es ≡ numbers 1 physical_demo_success_event_sequence)
  check_physical_demo_output-export dt root task_id n count files es read h =
      let (items, objects, loaded, listed, _, s, t, _) =
        check_physical_demo_output-ok root task_id n count files h in
      let same : objects ≡ exported dt es =
        exported_of dt items objects es (sym read ∙ loaded) listed in
      let shown = types_are-exported dt physical_demo_success_event_sequence es (
        ap (λ ts. types_are ts (exported dt es)) (sym expected_event_types_lem)
        ∙ ap (types_are expected_event_types) (sym same)
        ∙ t) in
      (
        shown,
        sequences_from-exported dt pl out 1 es (ap (sequences_from F pl out 1) (sym same) ∙ s)
            ∙ ap (numbers 1) shown,
      )
    where
      exported_of :
          (dt : Datetimes) (items : Items F) (objects : List (Fields F))
          (es : List (EventEnvelope dt.Datetime F))
          → some (array (export dt es)) ≡ some (array items)
          → event_objects items ≡ ok objects
          → objects ≡ exported dt es
      exported_of dt items objects es e listed = cc (e, listed, export-event_objects dt es)
