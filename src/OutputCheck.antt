-- ===== src/OutputCheck.antt =====
-- scripts/check_physical_demo_output.py: the check of the files that a physical demo has left. A
-- replay is the value of `json.loads`, whose objects have each key once; the expected marker id is
-- not negative. The disk, the paths and
-- the reading of a datetime are parameters.
pub mod Sound
pub mod Passed
use valera_control_tower.Base.{
  ℕ, zero, suc, ◌+◌, ◌==◌, ℤ, pos, Bool, true, false, ◌||◌, ◌&&◌, not, Option, none, some, List, [],
  ◌∷◌, ◌++◌, Text, text, text_eq, member, length, Result, ok, raised, ◌>>=◌, ◌>>◌, raise_if,
  attribute_error, output_error, if◌then◌else◌, Exception,
}
use valera_control_tower.Wire.{
  Json, boolean, integer, number, string, array, object, Items, nil, cons, Fields, end, field,
}
use valera_control_tower.Tasks.Evidence.{PurePosixPaths, evidence_root}
use valera_control_tower.Vision.LiveCamera.{live_camera_source}

-- `EXPECTED_EVENT_TYPES`
abbrev pub expected_event_types : List Text
expected_event_types =
    text "task.created"
    ∷ text "task.accepted"
    ∷ text "plan.created"
    ∷ text "route.started"
    ∷ text "route.arrived"
    ∷ text "object.search_started"
    ∷ text "object.found"
    ∷ text "grasp.started"
    ∷ text "object.grasped"
    ∷ text "delivery.started"
    ∷ text "object.released"
    ∷ text "delivery.completed"
    ∷ text "task.completed"
    ∷ []

-- What the check reads outside. A file that exists can be read.
pub record Outside (FilePath F : Type 0) : Type 1 where
  pub Instant : Type 0
  pub is_file : FilePath → Bool
  pub read_text : FilePath → Text
  -- `json.loads`, with none for JSONDecodeError.
  pub loads : Text → Option (Json F)
  -- `x == n` of a float and an int.
  pub float_is : F → ℕ → Bool
  -- `datetime.fromisoformat(raw.replace("Z", "+00:00"))`, with none for ValueError.
  pub instant : Text → Option Instant
  -- `current < previous`, which raises TypeError for a naive and an aware datetime.
  pub before : Instant → Instant → Result Bool
  -- `suffix`, `name.endswith`, and `s in t`.
  pub has_suffix : FilePath → Text → Bool
  pub name_ends_with : FilePath → Text → Bool
  pub occurs_in : Text → Text → Bool

-- `_require`
unfoldable pub require : Bool → Result (Unit {0})
require condition = raise_if (not condition) output_error

abbrev int_is : ℤ → ℕ → Bool
int_is (pos m) n = m == n
int_is _ n = false

abbrev bool_is : Bool → ℕ → Bool
bool_is true n = n == 1
bool_is false n = n == 0

module _ {F : Type 0} where
  -- `d.get(key)`
  unfoldable pub get : Text → Fields F → Option (Json F)
  get key end = none
  get key (field k x fs) = let rest = get key fs in if text_eq key k then some x else rest

  -- `value == s` for a string.
  unfoldable pub is_text : Text → Option (Json F) → Bool
  is_text s (some (string t)) = text_eq t s
  is_text s _ = false

  -- `event.get(...)` of each element, which raises AttributeError for one that is no object.
  unfoldable pub event_objects : Items F → Result (List (Fields F))
  event_objects nil = ok []
  event_objects (cons (object fs) items) = event_objects items >>= λ rest. ok (fs ∷ rest)
  event_objects (cons _ items) = raised attribute_error

  abbrev pub count_items : Items F → ℕ
  count_items nil = 0
  count_items (cons x items) = 1 + count_items items

  -- `isinstance(x, list)`, `isinstance(x, dict)` and `isinstance(x, str)`, with the value.
  unfoldable pub require_list : Option (Json F) → Result (Items F)
  require_list (some (array items)) = ok items
  require_list _ = raised output_error

  unfoldable pub require_object : Option (Json F) → Result (Fields F)
  require_object (some (object fs)) = ok fs
  require_object _ = raised output_error

  unfoldable pub require_string : Option (Json F) → Result Text
  require_string (some (string s)) = ok s
  require_string _ = raised output_error

  -- `[event.get("event_type") for event in replay] == [...]`
  unfoldable pub types_are : List Text → List (Fields F) → Bool
  unfolding get is_text
  types_are [] [] = true
  types_are (t ∷ ts) (e ∷ es) = is_text t (get (text "event_type") e) && types_are ts es
  types_are _ _ = false

  -- `replay[-1]` and `replay[6]` of a replay with 13 events.
  abbrev pub last_event : List (Fields F) → Fields F
  last_event [] = end
  last_event (e ∷ []) = e
  last_event (e ∷ f ∷ es) = last_event (f ∷ es)

  abbrev pub event_at : ℕ → List (Fields F) → Fields F
  event_at n [] = end
  event_at zero (e ∷ es) = e
  event_at (suc n) (e ∷ es) = event_at n es

  -- `_final_status(...) == "completed"`
  abbrev status_completed : Option (Json F) → Bool
  status_completed (some (object payload)) =
      is_text (text "completed") (get (text "status") payload)
  status_completed _ = false

  unfoldable pub is_completed : Fields F → Bool
  unfolding get is_text
  is_completed e =
      is_text (text "task.completed") (get (text "event_type") e)
      || status_completed (get (text "payload") e)

module _ (F : Type 0) (pl : PurePosixPaths) (out : Outside pl.FilePath F) where
  open pl use {FilePath, path, join, is_absolute, parts, is_relative_to}
  open out use {
    Instant, is_file, read_text, loads, float_is, instant, before, has_suffix, name_ends_with,
    occurs_in,
  }

  -- `value == n` for an int: also a float, and True for 1.
  unfoldable pub is_number : ℕ → Option (Json F) → Bool
  is_number n (some (integer m)) = int_is m n
  is_number n (some (number x)) = float_is x n
  is_number n (some (boolean b)) = bool_is b n
  is_number n _ = false

  -- `[event.get("sequence") for event in replay] == list(range(n, ...))`
  unfoldable pub sequences_from : ℕ → List (Fields F) → Bool
  unfolding get is_number
  sequences_from n [] = true
  sequences_from n (e ∷ es) = is_number n (get (text "sequence") e) && sequences_from (n + 1) es

  abbrev is_before : Instant → Option Instant → Result Bool
  is_before current none = ok false
  is_before current (some previous) = before current previous

  -- `_occurred_at_values_are_monotonic`
  unfoldable pub occurred_in_order : Option Instant → List (Fields F) → Result Bool
  unfolding get require_string
  occurred_in_order previous [] = ok true
  occurred_in_order previous (e ∷ es) = require_string (get (text "occurred_at") e) >>= λ raw.
      elim (instant raw) [
        | none ↦ raised output_error
        | some current ↦ is_before current previous >>= λ early. elim early [
          | true ↦ ok false
          | false ↦ occurred_in_order (some current) es
        ]
      ]

  -- A round of the loop of `_validate_evidence_refs`: the file, and whether its name ends like that
  -- of a raw and of an annotated image.
  unfoldable pub check_ref : FilePath → Json F → Result (FilePath × Bool × Bool)
  unfolding require require_object require_string get is_text
  check_ref root ref = do
    r ← require_object (some ref)
    require (is_text live_camera_source (get (text "source_adapter") r))
    require (is_text (text "image/png") (get (text "media_type") r))
    relative ← require_string (get (text "relative_path") r)
    require (not (is_absolute (path relative)))
    require (not (member (text "..") (parts (path relative))))
    require (is_relative_to (path relative) (evidence_root pl))
    require (has_suffix (path relative) (text ".png"))
    require (is_file (join root relative))
    ok (
      join root relative,
      name_ends_with (path relative) (text "-raw.png"),
      name_ends_with (path relative) (text "-annotated.png"),
    )

  unfoldable pub check_refs : FilePath → Items F → Result (List (FilePath × Bool × Bool))
  unfolding check_ref
  check_refs root nil = ok []
  check_refs root (cons ref refs) = do
    checked ← check_ref root ref
    rest ← check_refs root refs
    ok (checked ∷ rest)

  abbrev one_if : Bool → ℕ
  one_if true = 1
  one_if false = 0

  abbrev pub raw_count : List (FilePath × Bool × Bool) → ℕ
  raw_count [] = 0
  raw_count ((f, raw, annotated) ∷ fs) = one_if raw + raw_count fs

  abbrev pub annotated_count : List (FilePath × Bool × Bool) → ℕ
  annotated_count [] = 0
  annotated_count ((f, raw, annotated) ∷ fs) = one_if annotated + annotated_count fs

  -- `_validate_evidence_refs`
  unfoldable pub validate_evidence_refs :
      FilePath → Items F → Result (List (FilePath × Bool × Bool))
  unfolding check_refs require
  validate_evidence_refs root refs = do
    files ← check_refs root refs
    require (raw_count files == 1)
    require (annotated_count files == 1)
    ok files

  -- `_validate_dashboard`
  unfoldable pub validate_dashboard : FilePath → Result (Unit {0})
  unfolding require
  validate_dashboard dashboard_path =
      let html = read_text dashboard_path in
      require (
        occurs_in (text "Final status") html
        && occurs_in (text "completed") html
        && occurs_in (text "object.found") html
        && occurs_in live_camera_source html
        && occurs_in (text "task.completed") html
        && occurs_in (text "href=") html
        && occurs_in (text "<img ") html
        && occurs_in (text "evidence-preview") html)

  -- The checks of the object.found event.
  unfoldable pub check_found : FilePath → ℕ → Fields F → Result (List (FilePath × Bool × Bool))
  unfolding require get is_text is_number require_object require_list validate_evidence_refs
  check_found root marker_id e = do
    require (is_text (text "object.found") (get (text "event_type") e))
    require (is_text live_camera_source (get (text "source") e))
    require (is_text (text "real_vision") (get (text "mode") e))
    payload ← require_object (get (text "payload") e)
    require (is_text (text "VALERA-CUBE-001") (get (text "object_id") payload))
    require (is_number marker_id (get (text "marker_id") payload))
    require (is_number 1 (get (text "detection_score") payload))
    require (is_text (text "found") (get (text "status") payload))
    refs ← require_list (get (text "evidence_refs") e)
    require (count_items refs == 2)
    validate_evidence_refs root refs

  -- The checks of the events.
  unfoldable pub check_events :
      FilePath → ℕ → List (Fields F) → Result (List (FilePath × Bool × Bool))
  unfolding require sequences_from types_are is_completed occurred_in_order check_found get is_text
  check_events root marker_id events = do
    require (sequences_from 1 events)
    require (types_are expected_event_types events)
    require (is_text (text "task.completed") (get (text "event_type") (last_event events)))
    require (is_completed (last_event events))
    ordered ← occurred_in_order none events
    require ordered
    check_found root marker_id (event_at 6 events)

  -- The two files of a run.
  abbrev pub replay_path : FilePath → Text → FilePath
  replay_path root task_id =
      join (join (join (join root (text "data")) (text "runs")) task_id) (text "replay.json")

  abbrev pub dashboard_path : FilePath → Text → FilePath
  dashboard_path root task_id =
      join (join (join (join root (text "data")) (text "runs")) task_id) (text "dashboard.html")

  -- `json.loads` of the replay, with JSONDecodeError replaced.
  unfoldable pub parsed_replay : Option (Json F) → Result (Json F)
  parsed_replay none = raised output_error
  parsed_replay (some replay) = ok replay

  -- `check_physical_demo_output`: the number of events and the evidence files.
  unfoldable pub check_physical_demo_output :
      FilePath → Text → ℕ → Result (ℕ × List (FilePath × Bool × Bool))
  unfolding require require_list event_objects check_events validate_dashboard parsed_replay
  check_physical_demo_output root task_id marker_id = do
    require (is_file (replay_path root task_id))
    require (is_file (dashboard_path root task_id))
    replay ← parsed_replay (loads (read_text (replay_path root task_id)))
    items ← require_list (some replay)
    require (count_items items == 13)
    events ← event_objects items
    files ← check_events root marker_id events
    validate_dashboard (dashboard_path root task_id)
    ok (count_items items, files)
