-- ===== src/Dashboard.antt =====
-- dashboard/render.py: the summary of a replay; the children have the page and what is shown of it.
-- `str` of a value that is no string is a parameter.
pub mod Summary
pub mod Evidence
pub mod Template
pub mod Page
pub mod Skeleton
pub mod Markup
pub mod Links
use valera_control_tower.Base.{
  ℕ, Bool, true, false, ◌||◌, Option, none, some, List, [], ◌∷◌, Text, text, length, if◌then◌else◌,
}
use valera_control_tower.Wire.{Json, string, object, Fields, end, field}
use valera_control_tower.OutputCheck.{get, is_text, last_event}

pub record DashboardSummary : Type 0 where
  pub task_id : Text
  pub correlation_id : Text
  pub final_status : Text
  pub event_count : ℕ

module _ {F : Type 0} where
  -- `payload_status == "completed"` of an event whose default payload is the empty object.
  unfoldable pub payload_completed : Option (Json F) → Bool
  unfolding get is_text
  payload_completed (some (object payload)) =
      is_text (text "completed") (get (text "status") payload)
  payload_completed _ = false

  -- `key in d`
  abbrev has_value : Option (Json F) → Bool
  has_value none = false
  has_value (some x) = true

  -- `_final_status`
  unfoldable pub final_status : Fields F → Text
  unfolding get is_text payload_completed
  final_status e =
      if is_text (text "task.completed") (get (text "event_type") e)
        || payload_completed (get (text "payload") e)
      then text "completed"
      else if is_text (text "task.failed") (get (text "event_type") e)
          || has_value (get (text "error") e)
      then text "failed"
      else text "in progress / unknown"

  abbrev pub first_event : List (Fields F) → Fields F
  first_event [] = end
  first_event (e ∷ es) = e

  -- `str(d.get(key, "unknown"))`
  unfoldable pub shown_or_unknown : (Json F → Text) → Option (Json F) → Text
  shown_or_unknown str none = text "unknown"
  shown_or_unknown str (some (string s)) = s
  shown_or_unknown str (some x) = str x

  -- `summarize_events`
  unfoldable pub summarize_events : (Json F → Text) → List (Fields F) → DashboardSummary
  unfolding get shown_or_unknown final_status
  summarize_events str events = record {
    task_id = shown_or_unknown str (get (text "task_id") (first_event events));
    correlation_id = shown_or_unknown str (get (text "correlation_id") (first_event events));
    final_status = final_status (last_event events);
    event_count = length events;
  }
