-- ===== src/Missions/AdapterSim/Trace.antt =====
-- robot/adapter_sim_mission.py: the events of a mission over adapters that do not raise.
use valera_control_tower.Base.{
  ◌+◌, ◌<◌, ◌≡◌, refl, sym, ap, ◌∙◌, Bool, false, arith, Option, none, some, List, [], ◌∷◌, ◌++◌,
  Text, text, is_empty, ltb, All, Result, ok,
}
use mathlib.Core.List.{append-nil, append_assoc}
use valera_control_tower.Wire.{Fields}
use valera_control_tower.Tasks.Models.{Task, FailureCode}
use valera_control_tower.Tasks.Events.{
  Datetimes, EventType, route_arrived, hardware_probe_completed, grasp_started, object_grasped,
  delivery_started, object_released, delivery_completed, task_completed, task_failed, EventError,
  EventEnvelope, event_envelope, event_error,
}
use valera_control_tower.Tasks.EventLog.{is_terminal, with_event, append, validate, last_sequence}
use valera_control_tower.Devices.{ArmProbeResult, ArmCommandResult}
use valera_control_tower.Devices.Interfaces.{ArmAdapter}
use valera_control_tower.Missions.{with_status, with_target}
use valera_control_tower.Missions.AdapterSim.Payloads.{arm_probe_payload, grasp_payload}
use valera_control_tower.Missions.Open.{
  IsOpen, append-IsOpen, with_event-IsOpen, is_empty-append, numbered_id-nonempty, types,
  types-snoc,
}
use valera_control_tower.Missions.AdapterSim.{
  Log, builder_append, builder_fail, append_rows, closing_rows, handle_object,
}

abbrev pub row_types : {F : Type 0} → List (EventType × Fields F) → List EventType
row_types [] = []
row_types ((t, p) ∷ rows) = t ∷ row_types rows

-- Only the last row may end the task.
abbrev EndsLast : List EventType → Type 0
EndsLast [] = Unit
EndsLast (t ∷ []) = Unit
EndsLast (t ∷ u ∷ us) = (is_terminal t ≡ false) × EndsLast (u ∷ us)

module _ (F : Type 0) (dt : Datetimes) (task : Task) (named : is_empty task.task_id ≡ false) where
  open dt use {Datetime}

  -- A call that returns a log which validates and shows these events behind those of `log`.
  abbrev pub Shows : Log F dt → List EventType → Result (Log F dt) → Type 0
  Shows log ts r =
      (log' : Log F dt) × (r ≡ ok log')
      × (validate log' ≡ ok tt)
      × (types log'.events ≡ types log.events ++ ts)

  pub builder_append_total :
      (t : EventType) (payload : Fields F) (error : Option EventError) (log : Log F dt)
      → IsOpen task.task_id log
      → (log' : Log F dt) × (builder_append F dt task t payload error log ≡ ok log')
        × (validate log' ≡ ok tt)
        × (types log'.events ≡ types log.events ++ t ∷ [])
        × (is_terminal t ≡ false → IsOpen task.task_id log')
  unfolding builder_append event_envelope
  builder_append_total t payload error log o =
      let positive : ltb (last_sequence log + 1) 1 ≡ false = ground arith in
      let correlated = is_empty-append task.task_id (text "-adapter-simulation") named in
      rw (named, correlated, numbered_id-nonempty _ (last_sequence log + 1) correlated, positive)
        (appended _ refl refl refl)
    where
      appended :
          (e : EventEnvelope Datetime F)
          → e.task_id ≡ task.task_id
          → e.sequence ≡ last_sequence log + 1
          → e.event_type ≡ t
          → (log' : Log F dt) × (append log e ≡ ok log')
            × (validate log' ≡ ok tt)
            × (types log'.events ≡ types log.events ++ t ∷ [])
            × (is_terminal t ≡ false → IsOpen task.task_id log')
      appended e same at kind =
          let later : last_sequence log < e.sequence = omega (arith, at) in
          let (taken, valid) = append-IsOpen task.task_id log e o same later in
          (
            with_event log e,
            taken,
            valid,
            types-snoc log.events e ∙ ap (λ u. types log.events ++ u ∷ []) kind,
            λ going.
                (with_event-IsOpen task.task_id log e o same later (ap is_terminal kind ∙ going)).0,
          )

  pub builder_fail_total :
      (code : FailureCode) (message : Text) (log : Log F dt)
      → is_empty message ≡ false
      → IsOpen task.task_id log
      → Shows log (task_failed ∷ []) (builder_fail F dt task code message log)
  unfolding builder_fail event_error
  builder_fail_total code message log given o =
      let (l, made, valid, shown, going) =
        builder_append_total task_failed (with_status task (text "failed"))
          (some (record { code = code; message = message })) log o in
      (l, rw given (rw made (rw valid)), valid, shown)

  append_rows_total :
      (rows : List (EventType × Fields F)) (log : Log F dt)
      → IsOpen task.task_id log
      → EndsLast (row_types rows)
      → Shows log (row_types rows) (append_rows F dt task rows log)
  unfolding append_rows
  append_rows_total [] log o ends = (log, refl, o.validated, sym (append-nil (types log.events)))
  append_rows_total ((t, p) ∷ []) log o ends =
      let (l, made, valid, shown, going) = builder_append_total t p none log o in
      (l, rw made, valid, shown)
  append_rows_total ((t, p) ∷ (u, q) ∷ rows) log o ends =
      let (l, made, valid, shown, going) = builder_append_total t p none log o in
      let (m, more, valid', shown') = append_rows_total ((u, q) ∷ rows) l (going ends.0) ends.1 in
      (
        m,
        rw made more,
        valid',
        shown'
            ∙ ap (λ v. v ++ u ∷ row_types rows) shown
            ∙ append_assoc (types log.events) (t ∷ []) (u ∷ row_types rows),
      )

  -- One more event in front of a call that shows `ts`.
  pub Shows-cons :
      (log l : Log F dt) (t : EventType) (ts : List EventType) (r : Result (Log F dt))
      → types l.events ≡ types log.events ++ t ∷ []
      → Shows l ts r
      → Shows log (t ∷ ts) r
  Shows-cons log l t ts r shown (m, ran, valid, shown') = (
    m,
    ran,
    valid,
    shown' ∙ ap (λ v. v ++ ts) shown ∙ append_assoc (types log.events) (t ∷ []) ts,
  )

  pub append_rows-IsOpen :
      (rows : List (EventType × Fields F)) (log : Log F dt)
      → IsOpen task.task_id log
      → All (λ (t : EventType). is_terminal t ≡ false) (row_types rows)
      → (log' : Log F dt) × (append_rows F dt task rows log ≡ ok log')
        × IsOpen task.task_id log'
        × (types log'.events ≡ types log.events ++ row_types rows)
  unfolding append_rows
  append_rows-IsOpen [] log o going = (log, refl, o, sym (append-nil (types log.events)))
  append_rows-IsOpen ((t, p) ∷ rows) log o going =
      let (l, made, valid, shown, open_l) = builder_append_total t p none log o in
      let (m, more, o', shown') = append_rows-IsOpen rows l (open_l going.0) going.1 in
      (
        m,
        rw made more,
        o',
        shown'
            ∙ ap (λ v. v ++ row_types rows) shown
            ∙ append_assoc (types log.events) (t ∷ []) (row_types rows),
      )

  -- The events from the arm's probe on.
  abbrev pub handled_types : List EventType
  handled_types =
      hardware_probe_completed ∷ grasp_started ∷ object_grasped ∷ delivery_started ∷ route_arrived
      ∷ object_released ∷ delivery_completed ∷ task_completed ∷ []

  module _ {A : Type 0} (arm : ArmAdapter F A) (g : A → A × ArmProbeResult F)
      (h : A → Bool → A × ArmCommandResult F) (probes : (a : A) → arm.probe a ≡ ok (g a))
      (grasps : (a : A) (b : Bool) → arm.simulate_grasp a b ≡ ok (h a b)) where
    pub handle_object_total :
        (a : A) (log : Log F dt)
        → IsOpen task.task_id log
        → Shows log handled_types (handle_object F dt task arm a log)
    unfolding handle_object is_terminal
    handle_object_total a log o =
        let (l1, r1, v1, s1, o1) =
          builder_append_total hardware_probe_completed (arm_probe_payload task (g a).1) none log
            o in
        let (l2, r2, v2, s2, o2) =
          builder_append_total grasp_started (with_target task (text "grasping") task.pickup_zone)
            none l1 (o1 refl) in
        let (l3, r3, v3, s3, o3) =
          builder_append_total object_grasped (grasp_payload task (h (g a).0 false).1) none l2
            (o2 refl) in
        let (l4, r4, v4, s4) =
          append_rows_total (closing_rows F dt task) l3 (o3 refl)
            (refl, (refl, (refl, (refl, tt)))) in
        Shows-cons log l1 hardware_probe_completed _ _ s1 (
          Shows-cons l1 l2 grasp_started _ _ s2 (
            Shows-cons l2 l3 object_grasped _ _ s3 (
              l4,
              rw (probes a) (rw r1 (rw r2 (rw (grasps (g a).0 false) (rw r3 (rw r4 (rw v4)))))),
              v4,
              s4,
            )))
