-- ===== src/Missions/Hybrid.antt =====
-- robot/hybrid_demo.py: the simulated mission with the detection of a vision fixture in it.
use valera_control_tower.Base.{
  Bool, true, false, some, List, [], ◌∷◌, Text, text, Result, ok, raised, ◌>>=◌, ◌>>◌,
  stop_iteration, if◌then◌else◌,
}
use valera_control_tower.Tasks.Models.{
  Task, make_task, pickup_zone, delivery_zone, simulation, real_vision, member_value,
}
use valera_control_tower.Tasks.Evidence.{PurePosixPaths}
use valera_control_tower.Tasks.Events.{Datetimes, EventType, object_found, EventEnvelope}
use valera_control_tower.Tasks.EventLog.{TaskEventLog, append, validate}
use valera_control_tower.Missions.Simulated.{run_simulated_mission}
use valera_control_tower.Vision.{Cv2, vision_source, run_fixture_detection}

-- `event_type == EventType.OBJECT_FOUND`
unfoldable pub is_object_found : EventType → Bool
is_object_found object_found = true
is_object_found _ = false

-- The two tasks.
unfoldable pub simulation_task : Text → Text → Result Task
simulation_task task_id object_id =
    make_task task_id object_id (member_value pickup_zone) (member_value delivery_zone)
      (member_value simulation)
      (text "Hybrid fixture mission with simulated movement and real vision")

unfoldable pub vision_task : Text → Text → Result Task
vision_task task_id object_id =
    make_task task_id object_id (member_value pickup_zone) (member_value delivery_zone)
      (member_value real_vision) (text "Hybrid fixture object detection")

module _ {D F : Type 0} where
  -- `next(event for event in ... if ...)`
  unfoldable pub first_found : List (EventEnvelope D F) → Result (EventEnvelope D F)
  unfolding is_object_found
  first_found [] = raised stop_iteration
  first_found (e ∷ es) =
      let rest = first_found es in if is_object_found e.event_type then ok e else rest

  -- The event that a round of the loop appends.
  unfoldable pub hybrid_event : EventEnvelope D F → EventEnvelope D F → EventEnvelope D F
  unfolding is_object_found
  hybrid_event vision_event event = if is_object_found event.event_type then vision_event else event

  -- The loop over the events of the simulated mission.
  unfoldable pub append_hybrid :
      EventEnvelope D F → List (EventEnvelope D F) → TaskEventLog D F → Result (TaskEventLog D F)
  unfolding hybrid_event
  append_hybrid vision_event [] log = ok log
  append_hybrid vision_event (event ∷ events) log =
      append log (hybrid_event vision_event event) >>= append_hybrid vision_event events

  -- The hybrid log of a task, from its start to its validation.
  unfoldable pub hybrid_log :
      Text → EventEnvelope D F → List (EventEnvelope D F) → Result (TaskEventLog D F)
  unfolding append_hybrid
  hybrid_log task_id vision_event events = do
    log ← append_hybrid vision_event events (record { task_id = task_id; events = [] })
    validate log
    ok log

module _ (dt : Datetimes) (pl : PurePosixPaths) (cv : Cv2 pl.FilePath) where
  open dt use {Datetime}
  open pl use {FilePath}
  open cv use {World, F}

  -- The detection at the place of the event that it replaces.
  unfoldable pub detect_at :
      Task
      → FilePath
      → FilePath
      → Datetime
      → EventEnvelope Datetime F
      → World
      → Result (World × EventEnvelope Datetime F)
  detect_at task fixture_path base now found world =
      run_fixture_detection dt pl cv task fixture_path found.sequence found.correlation_id base
        (some found.occurred_at) now vision_source (text "fixture image") world

  -- `run_hybrid_fixture_mission`, with the time of `datetime.now`.
  unfoldable pub run_hybrid_fixture_mission :
      Text
      → Text
      → FilePath
      → FilePath
      → Datetime
      → World
      → Result (World × TaskEventLog Datetime F)
  unfolding simulation_task vision_task first_found detect_at hybrid_log
  run_hybrid_fixture_mission task_id object_id base fixture_path now world = do
    movement ← simulation_task task_id object_id
    simulated_log ← run_simulated_mission F dt movement
    found ← first_found simulated_log.events
    seen ← vision_task task_id object_id
    (world', vision_event) ← detect_at seen fixture_path base now found world
    log ← hybrid_log task_id vision_event simulated_log.events
    ok (world', log)
