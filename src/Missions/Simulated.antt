-- ===== src/Missions/Simulated.antt =====
-- robot/sim_executor.py: the simulated mission.
use valera_control_tower.Base.{
  ℕ, ◌+◌, ◌-◌, none, List, [], ◌∷◌, ◌++◌, Text, text, ltb, Result, ok, raised, ◌>>=◌, ◌>>◌,
  validation_error, hardware_mode_error, if◌then◌else◌,
}
use valera_control_tower.Wire.{string, Fields, end, field}
use valera_control_tower.Tasks.Models.{
  Task, Zone, ExecutionMode, simulation, is_simulation, is_hardware, member_value,
}
use valera_control_tower.Tasks.Events.{
  Datetimes, EventType, task_created, task_accepted, plan_created, route_started, route_arrived,
  object_search_started, object_found, grasp_started, object_grasped, delivery_started,
  object_released, delivery_completed, task_completed, EventEnvelope, event_envelope,
  event_schema_version,
}
use valera_control_tower.Tasks.EventLog.{TaskEventLog, append, validate}
use valera_control_tower.Missions.{
  numbered_id, merge, base_payload, with_status, with_target, planned_route,
}

-- `APPROVED_SUCCESS_EVENT_SEQUENCE`
abbrev pub approved_success_event_sequence : List EventType
approved_success_event_sequence =
    task_created ∷ plan_created ∷ task_accepted ∷ route_started ∷ route_arrived
    ∷ object_search_started ∷ object_found ∷ grasp_started ∷ object_grasped ∷ delivery_started
    ∷ route_arrived ∷ object_released ∷ delivery_completed ∷ task_completed ∷ []

-- `SIMULATION_SOURCE`
abbrev pub simulation_source : Text
simulation_source = text "valera.sim_executor"

-- `_arrival_target`
unfoldable pub arrival_target : Task → ℕ → Zone
arrival_target task sequence = if ltb sequence 10 then task.pickup_zone else task.delivery_zone

-- `_payload_for_event`
unfoldable pub payload_for_event : {F : Type 0} → Task → EventType → ℕ → Fields F
unfolding arrival_target
payload_for_event task task_created sequence = with_status task (text "created")
payload_for_event task plan_created sequence = merge (base_payload task) (
    field (text "status") (string (text "planned"))
      (field (text "planned_route") (planned_route task) end))
payload_for_event task task_accepted sequence = with_status task (text "accepted")
payload_for_event task route_started sequence =
    with_target task (text "in_transit") task.pickup_zone
payload_for_event task route_arrived sequence =
    with_target task (text "arrived") (arrival_target task sequence)
payload_for_event task object_search_started sequence =
    with_target task (text "searching") task.pickup_zone
payload_for_event task object_found sequence = with_target task (text "found") task.pickup_zone
payload_for_event task grasp_started sequence = with_target task (text "grasping") task.pickup_zone
payload_for_event task object_grasped sequence = with_target task (text "secured") task.pickup_zone
payload_for_event task delivery_started sequence =
    with_target task (text "delivering") task.delivery_zone
payload_for_event task object_released sequence =
    with_target task (text "released") task.delivery_zone
payload_for_event task delivery_completed sequence =
    with_target task (text "delivered") task.delivery_zone
payload_for_event task task_completed sequence =
    with_target task (text "completed") task.delivery_zone
payload_for_event task _ sequence = with_status task (text "simulated")

-- The exception for a task that is no simulation.
unfoldable pub reject_mode : ExecutionMode → Result (Unit {0})
reject_mode mode =
    if is_simulation mode
    then ok tt
    else raised (if is_hardware mode then hardware_mode_error else validation_error)

module _ (F : Type 0) (dt : Datetimes) where
  open dt use {Datetime, utc, add_seconds}

  -- `SIMULATION_TIMESTAMP_BASE`
  abbrev pub simulation_timestamp_base : Datetime
  simulation_timestamp_base = utc 2026 7 2 12 0

  -- The event that the loop appends.
  unfoldable pub simulated_event : Task → Text → ℕ → EventType → Result (EventEnvelope Datetime F)
  simulated_event task correlation_id sequence event_type =
      event_envelope dt (numbered_id correlation_id sequence) task.task_id correlation_id sequence
        (member_value event_type) (add_seconds simulation_timestamp_base (sequence - 1))
        simulation_source (member_value simulation) (payload_for_event task event_type sequence)
        event_schema_version [] none

  -- The loop over the sequence of event types.
  unfoldable pub append_events :
      Task → Text → ℕ → List EventType → TaskEventLog Datetime F → Result (TaskEventLog Datetime F)
  append_events task correlation_id sequence [] log = ok log
  append_events task correlation_id sequence (t ∷ ts) log = do
    event ← simulated_event task correlation_id sequence t
    log' ← append log event
    append_events task correlation_id (sequence + 1) ts log'

  -- `run_simulated_mission`
  unfoldable pub run_simulated_mission : Task → Result (TaskEventLog Datetime F)
  run_simulated_mission task = do
    reject_mode task.mode
    log ←
        append_events task (task.task_id ++ text "-simulation-mission") 1
          approved_success_event_sequence (record { task_id = task.task_id; events = [] })
    validate log
    ok log
