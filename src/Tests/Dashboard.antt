-- ===== src/Tests/Dashboard.antt =====
-- dashboard/render.py at a concrete input.
use valera_control_tower.Base.{ℕ, ◌≡◌, refl, List, [], ◌∷◌, Text, text}
use valera_control_tower.Wire.{Json}
use valera_control_tower.Tasks.Events.{task_created, task_completed, EventEnvelope}
use valera_control_tower.OutputCheck.Sound.{exported}
use valera_control_tower.Dashboard.{summarize_events}
use valera_control_tower.Dashboard.Summary.{summarize_events-exported}
use valera_control_tower.Tests.Missions.{seconds}
use valera_control_tower.Tests.Tasks.{event}

abbrev no_text : Json ℕ → Text
no_text j = []

abbrev log : List (EventEnvelope ℕ ℕ)
log = event 1 task_created ∷ event 2 task_completed ∷ []

summarize_events-exported_example :
    ((summarize_events no_text (exported seconds log)).task_id ≡ (event 1 task_created).task_id)
    × ((summarize_events no_text (exported seconds log)).correlation_id
        ≡ (event 1 task_created).correlation_id)
    × ((summarize_events no_text (exported seconds log)).final_status ≡ text "completed")
    × ((summarize_events no_text (exported seconds log)).event_count ≡ 2)
summarize_events-exported_example =
    summarize_events-exported seconds no_text (event 1 task_created) (event 2 task_completed ∷ [])
      refl
