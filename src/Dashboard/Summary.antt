-- ===== src/Dashboard/Summary.antt =====
-- dashboard/render.py: the summary of the export of a log.
use valera_control_tower.Base.{◌≡◌, refl, arith, List, [], ◌∷◌, Text, text, text_eq, length}
use valera_control_tower.Wire.{Json}
use valera_control_tower.Tasks.Events.{
  Datetimes, task_completed, event_type_value, EventEnvelope, event_to_dict,
}
use valera_control_tower.Missions.Open.{types}
use valera_control_tower.Missions.PhysicalSafety.{last_type}
use valera_control_tower.OutputCheck.{get, is_text, last_event}
use valera_control_tower.OutputCheck.Sound.{exported}
use valera_control_tower.Dashboard.{final_status, shown_or_unknown, summarize_events}

module _ {F : Type 0} (dt : Datetimes) where
  open dt use {Datetime}

  final_status-completed :
      (e : EventEnvelope Datetime F)
      → e.event_type ≡ task_completed
      → final_status (event_to_dict dt e) ≡ text "completed"
  unfolding final_status get is_text event_to_dict event_type_value text_eq
  final_status-completed e h = rw (h, final_status) refl

  last_event-completed :
      (e : EventEnvelope Datetime F) (es : List (EventEnvelope Datetime F))
      → last_type e.event_type (types es) ≡ task_completed
      → final_status (last_event (exported dt (e ∷ es))) ≡ text "completed"
  last_event-completed e [] h = final_status-completed e h
  last_event-completed e (f ∷ es) h = last_event-completed f es h

  length-exported : (es : List (EventEnvelope Datetime F)) → length (exported dt es) ≡ length es
  length-exported [] = refl
  length-exported (e ∷ es) = omega (arith, length-exported es)

  -- The dashboard of the export of a log whose last event is task.completed shows the task and the
  -- correlation of its first event, the status "completed" and the number of its events.
  pub summarize_events-exported :
      (str : Json F → Text) (e : EventEnvelope Datetime F) (es : List (EventEnvelope Datetime F))
      → last_type e.event_type (types es) ≡ task_completed
      → ((summarize_events str (exported dt (e ∷ es))).task_id ≡ e.task_id)
        × ((summarize_events str (exported dt (e ∷ es))).correlation_id ≡ e.correlation_id)
        × ((summarize_events str (exported dt (e ∷ es))).final_status ≡ text "completed")
        × ((summarize_events str (exported dt (e ∷ es))).event_count ≡ length (e ∷ es))
  unfolding summarize_events shown_or_unknown get event_to_dict text_eq
  summarize_events-exported str e es h =
      (refl, refl, last_event-completed e es h, length-exported (e ∷ es))
