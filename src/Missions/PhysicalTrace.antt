-- ===== src/Missions/PhysicalTrace.antt =====
-- robot/physical_demo.py: the events of a run that returns.
use valera_control_tower.Base.{
  ℕ, ◌+◌, ◌≡◌, sym, ap, ◌∙◌, Bool, true, false, not, arith, Option, List, [], ◌∷◌, ◌++◌, Text, text,
  ok, ◌>>=◌, raise_if, live_camera_disabled_error, ℤ, bind-ok, then-ok, check-ok, ok-injective,
}
use mathlib.Core.List.{append-nil, append_assoc}
use valera_control_tower.Tasks.Models.{
  Task, FailureCode, make_task, manual_cancelled, object_not_found, invalid_task,
}
use valera_control_tower.Tasks.Events.{
  Datetimes, EventType, task_completed, task_failed, object_found, EventEnvelope, event_envelope,
}
use valera_control_tower.Tasks.EventLog.{append, validate, last_sequence}
use valera_control_tower.Missions.Open.{types, append-ok, append-types}
use valera_control_tower.Missions.Physical.{
  OperatorConfirmation, operator_confirmations, opening_event_types, Provider, Log, physical_event,
  failed_event, append_step, finish_failed, append_steps, finish_completed, confirm_steps,
  after_probe, ProbeRunner, physical_task, run_physical_demo, or_text, or_time, occurred_at,
}
use valera_control_tower.Missions.PhysicalProbe.{append_steps-last_sequence, after_probe-Extends}

-- What a run shows from the confirmations on: a step for each confirmation up to the first that is
-- refused, then the end.
unfoldable pub confirmed_types :
    {S : Type 0} → Provider S → List OperatorConfirmation → S → List EventType
confirmed_types provider [] s = task_completed ∷ []
confirmed_types provider (c ∷ cs) s =
    let (s', answer) = provider s c.step_name c.prompt in
    elim answer [ false ↦ task_failed ∷ [] | true ↦ c.event_type ∷ confirmed_types provider cs s' ]

-- What a run shows behind the event of the probe.
unfoldable pub ending_types : {S : Type 0} → Provider S → S → EventType → List EventType
unfolding confirmed_types
ending_types provider s object_found = confirmed_types provider operator_confirmations s
ending_types provider s t = task_failed ∷ []

module _ (F : Type 0) (dt : Datetimes) (task : Task) (correlation : Text) (base : dt.Datetime) where
  open dt use {Datetime}

  physical_event-type :
      (t : EventType) (n : ℕ) (e : EventEnvelope Datetime F)
      → physical_event F dt task t correlation n base ≡ ok e
      → e.event_type ≡ t
  unfolding physical_event event_envelope
  physical_event-type t n e h = ground arith

  append_step-ok :
      (t : EventType) (log log' : Log F dt)
      → append_step F dt task correlation base t log ≡ ok log'
      → types log'.events ≡ types log.events ++ t ∷ []
  unfolding append_step
  append_step-ok t log log' h =
      let (e, made, taken) =
        bind-ok (physical_event F dt task t correlation (last_sequence log + 1) base) _ h in
      append-types log log' e taken
      ∙ ap (λ u. types log.events ++ u ∷ []) (physical_event-type t _ e made)

  append_steps-ok :
      (ts : List EventType) (log log' : Log F dt)
      → append_steps F dt task correlation base ts log ≡ ok log'
      → types log'.events ≡ types log.events ++ ts
  unfolding append_steps
  append_steps-ok [] log log' h = rw (sym (ok-injective h)) (sym (append-nil (types log.events)))
  append_steps-ok (t ∷ ts) log log' h =
      let (l, one, more) = bind-ok (append_step F dt task correlation base t log) _ h in
      append_steps-ok ts l log' more
      ∙ ap (λ s. s ++ ts) (append_step-ok t log l one)
      ∙ append_assoc (types log.events) (t ∷ []) ts

  failed_event-type :
      (n : ℕ) (reason : Text) (code : FailureCode) (e : EventEnvelope Datetime F)
      → failed_event F dt task correlation n base reason code ≡ ok e
      → e.event_type ≡ task_failed
  unfolding failed_event event_envelope
  failed_event-type n reason code e h = ground arith

  finish_failed-ok :
      (reason : Text) (code : FailureCode) (log log' : Log F dt)
      → finish_failed F dt task correlation base reason code log ≡ ok log'
      → (validate log' ≡ ok tt) × (types log'.events ≡ types log.events ++ task_failed ∷ [])
  unfolding finish_failed
  finish_failed-ok reason code log log' h =
      let (e, made, h1) =
        bind-ok (failed_event F dt task correlation (last_sequence log + 1) base reason code) _ h in
      let (l, taken, h2) = bind-ok (append log e) _ h1 in
      let same = ok-injective (then-ok (validate l) _ h2) in
      rw (sym same) (
        check-ok (validate l) _ h2,
        append-types log l e taken
            ∙ ap (λ u. types log.events ++ u ∷ []) (failed_event-type _ reason code e made),
      )

  finish_completed-ok :
      (log log' : Log F dt)
      → finish_completed F dt task correlation base log ≡ ok log'
      → (validate log' ≡ ok tt) × (types log'.events ≡ types log.events ++ task_completed ∷ [])
  unfolding finish_completed
  finish_completed-ok log log' h =
      let (l, taken, h2) =
        bind-ok (append_step F dt task correlation base task_completed log) _ h in
      let same = ok-injective (then-ok (validate l) _ h2) in
      rw (sym same) (check-ok (validate l) _ h2, append_step-ok task_completed log l taken)

  confirm_steps-ok :
      {S : Type 0} (provider : Provider S) (cs : List OperatorConfirmation) (s : S)
      (log log' : Log F dt)
      → confirm_steps F dt provider task correlation base cs s log ≡ ok log'
      → (validate log' ≡ ok tt)
        × (types log'.events ≡ types log.events ++ confirmed_types provider cs s)
  unfolding confirm_steps confirmed_types
  confirm_steps-ok provider [] s log log' h = finish_completed-ok log log' h
  confirm_steps-ok {S} provider (c ∷ cs) s log log' h =
      answered (provider s c.step_name c.prompt).0 (provider s c.step_name c.prompt).1
        (λ l. confirm_steps-ok provider cs (provider s c.step_name c.prompt).0 l log') h
    where
      answered :
          (s' : S) (answer : Bool)
          → ((l : Log F dt)
              → confirm_steps F dt provider task correlation base cs s' l ≡ ok log'
              → (validate log' ≡ ok tt)
                × (types log'.events ≡ types l.events ++ confirmed_types provider cs s'))
          → elim answer [
            | false ↦
                finish_failed F dt task correlation base
                  (text "operator cancelled during " ++ c.step_name)
                  manual_cancelled
                  log
            | true ↦ append_step F dt task correlation base c.event_type log >>= λ l.
                confirm_steps F dt provider task correlation base cs s' l
          ]
            ≡ ok log'
          → (validate log' ≡ ok tt)
            × (types log'.events
                ≡ types log.events ++ elim answer [
                  | false ↦ task_failed ∷ []
                  | true ↦ c.event_type ∷ confirmed_types provider cs s'
                ])
      answered s' false rest h = finish_failed-ok _ manual_cancelled log log' h
      answered s' true rest h =
          let (l, one, more) =
            bind-ok (append_step F dt task correlation base c.event_type log) _ h in
          let (valid, shown) = rest l more in
          (
            valid,
            shown
                ∙ ap (λ u. u ++ confirmed_types provider cs s')
                    (append_step-ok c.event_type log l one)
                ∙ append_assoc (types log.events) (c.event_type ∷ [])
                    (confirmed_types provider cs s'),
          )

  after_probe-ok :
      {S : Type 0} (provider : Provider S) (s : S) (t : EventType) (log log' : Log F dt)
      → after_probe F dt provider task correlation base s t log ≡ ok log'
      → (validate log' ≡ ok tt)
        × (types log'.events ≡ types log.events ++ ending_types provider s t)
  unfolding after_probe ending_types
  after_probe-ok provider s object_found log log' h =
      confirm_steps-ok provider operator_confirmations s log log' h
  after_probe-ok provider s EventType.object_not_found log log' h =
      finish_failed-ok _ object_not_found log log' h
  after_probe-ok provider s t log log' h = finish_failed-ok _ invalid_task log log' h

  probed_run-ok :
      {S : Type 0} (provider : Provider S) (s : S) (detection : EventEnvelope Datetime F)
      (opened l log : Log F dt)
      → append_steps F dt task correlation base opening_event_types
          (record { task_id = task.task_id; events = [] })
        ≡ ok opened
      → append opened detection ≡ ok l
      → after_probe F dt provider task correlation base s detection.event_type l ≡ ok log
      → (validate log ≡ ok tt)
        × (types log.events
            ≡ opening_event_types
              ++ detection.event_type ∷ ending_types provider s detection.event_type)
  probed_run-ok provider s detection opened l log steps taken ended =
      let (valid, shown) = after_probe-ok provider s detection.event_type l log ended in
      (
        valid,
        shown
            ∙ ap (λ u. u ++ ending_types provider s detection.event_type)
                (append-types opened l detection taken
                  ∙ ap (λ u. u ++ detection.event_type ∷ [])
                      (append_steps-ok opening_event_types _ opened steps)),
      )

module _ (F : Type 0) (dt : Datetimes) where
  open dt use {Datetime}

  not_disabled : (b : Bool) → raise_if (not b) live_camera_disabled_error ≡ ok tt → b ≡ true
  not_disabled b h = ground arith

  physical_task_fields :
      (task_id object_id : Text) (task : Task)
      → physical_task F dt task_id object_id ≡ ok task
      → (task.task_id ≡ task_id) × (task.object_id ≡ object_id)
  unfolding physical_task make_task
  physical_task_fields task_id object_id task h = ground arith

  probe_of :
      (probe : ProbeRunner F dt) (task : Task) (task_id object_id : Text) (i : ℤ) (root : Text)
      (n : ℕ) (correlation_id : Option Text) (d : Datetime) {e : EventEnvelope Datetime F}
      → task.task_id ≡ task_id
      → task.object_id ≡ object_id
      → n ≡ 7
      → probe task.task_id task.object_id i true root n
          (or_text correlation_id (task.task_id ++ text "-physical-demo"))
          (occurred_at F dt d n)
        ≡ ok e
      → probe task_id object_id i true root 7
          (or_text correlation_id (task_id ++ text "-physical-demo"))
          (occurred_at F dt d 7)
        ≡ ok e
  probe_of probe task task_id object_id i root n correlation_id d a b k h =
      rw (sym a, sym b, sym k) h

  -- A run that returns was enabled, and the probe's answer to the sequence 7, the run's correlation
  -- id and the time of that event was no exception; its log validates, and its events are six
  -- opening ones, the one that the probe gave, and what the operator's answers make of the rest: a
  -- step for each confirmation up to the first that is refused, then task.completed if none is
  -- refused and task.failed otherwise. Where the probe gives no object.found, task.failed follows.
  pub run_physical_demo-ok :
      {S : Type 0} (task_id object_id : Text) (camera_index : ℤ) (enabled : Bool) (root : Text)
      (provider : Provider S) (s : S) (correlation_id : Option Text) (started : Option Datetime)
      (now : Datetime) (probe : ProbeRunner F dt) (log : Log F dt)
      → run_physical_demo F dt task_id object_id camera_index enabled root provider s correlation_id
          started now probe
        ≡ ok log
      → (enabled ≡ true)
        × (validate log ≡ ok tt)
        × ((detection : EventEnvelope Datetime F) × (before : List (EventEnvelope Datetime F))
            × (after : List (EventEnvelope Datetime F)) × (probe task_id object_id camera_index true
                  root 7
                  (or_text correlation_id (task_id ++ text "-physical-demo"))
                  (occurred_at F dt (or_time started now) 7)
                ≡ ok detection)
            × (log.events ≡ before ++ detection ∷ after)
            × (types before ≡ opening_event_types)
            × (types log.events
                ≡ opening_event_types
                  ++ detection.event_type ∷ ending_types provider s detection.event_type))
  unfolding run_physical_demo last_sequence
  run_physical_demo-ok {S} task_id object_id camera_index enabled root provider s correlation_id
        started now probe log h =
      let h1 = then-ok (raise_if (not enabled) live_camera_disabled_error) _ h in
      let enabled_true =
        not_disabled enabled (check-ok (raise_if (not enabled) live_camera_disabled_error) _ h) in
      let (task, made, h2) = bind-ok (physical_task F dt task_id object_id) _ h1 in
      let (opened, steps, h3) = bind-ok (append_steps F dt task _ _ opening_event_types _) _ h2 in
      let (detection, probed, h4) =
        bind-ok (probe task.task_id task.object_id camera_index true root _ _ _) _ h3 in
      let (l, taken, h5) = bind-ok (append opened detection) _ h4 in
      let (ended, shown) =
        probed_run-ok F dt task _ _ provider s detection opened l log steps taken h5 in
      let (after, placed) =
        after_probe-Extends F dt task _ _ provider s detection.event_type l log h5 in
      let numbered : last_sequence opened + 1 ≡ 7 =
        ap (λ n. n + 1)
          (append_steps-last_sequence F dt task _ _ opening_event_types _ opened steps) in
      let (same_id, same_object) = physical_task_fields task_id object_id task made in
      (
        enabled_true,
        ended,
        (
          detection,
          opened.events,
          after,
          probe_of probe task task_id object_id camera_index root _ correlation_id _ same_id
              same_object numbered probed,
          placed
              ∙ ap (λ es. es ++ after) (ap (λ m. m.events) (append-ok opened l detection taken))
              ∙ append_assoc opened.events (detection ∷ []) after,
          append_steps-ok F dt task _ _ opening_event_types _ opened steps,
          shown,
        ),
      )
