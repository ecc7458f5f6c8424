-- ===== src/Missions/PhysicalProbe.antt =====
-- robot/physical_demo.py: the place of the probe's event in the log of a run.
use valera_control_tower.Base.{
  ℕ, ◌+◌, ◌≡◌, sym, ap, ◌∙◌, Bool, true, false, arith, List, [], ◌∷◌, ◌++◌, Text, text, length, ok,
  ◌>>=◌, bind-ok, then-ok, ok-injective,
}
use mathlib.Core.List.{append_assoc}
use valera_control_tower.Tasks.Models.{
  Task, FailureCode, manual_cancelled, object_not_found, invalid_task,
}
use valera_control_tower.Tasks.Events.{
  Datetimes, EventType, task_completed, object_found, EventEnvelope, event_envelope,
}
use valera_control_tower.Tasks.EventLog.{append, validate, last_sequence}
use valera_control_tower.Missions.Open.{append-ok, append-last_sequence}
use valera_control_tower.Missions.Physical.{
  OperatorConfirmation, operator_confirmations, Provider, Log, physical_event, failed_event,
  append_step, finish_failed, append_steps, finish_completed, confirm_steps, after_probe,
}

module _ (F : Type 0) (dt : Datetimes) (task : Task) (correlation : Text) (base : dt.Datetime) where
  open dt use {Datetime}

  -- A log that begins with the events of another.
  abbrev pub Extends : Log F dt → Log F dt → Type 0
  Extends log log' = (rest : List (EventEnvelope Datetime F)) × (log'.events ≡ log.events ++ rest)

  pub append-Extends :
      (log log' : Log F dt) (e : EventEnvelope Datetime F)
      → append log e ≡ ok log'
      → Extends log log'
  append-Extends log log' e h = (e ∷ [], ap (λ l. l.events) (append-ok log log' e h))

  Extends-trans : (l m n : Log F dt) → Extends l m → Extends m n → Extends l n
  Extends-trans l m n (r, h) (s, k) = (r ++ s, k ∙ ap (λ es. es ++ s) h ∙ append_assoc l.events r s)

  physical_event-sequence :
      (t : EventType) (n : ℕ) (e : EventEnvelope Datetime F)
      → physical_event F dt task t correlation n base ≡ ok e
      → e.sequence ≡ n
  unfolding physical_event event_envelope
  physical_event-sequence t n e h = ground arith

  append_step-Extends :
      (t : EventType) (log log' : Log F dt)
      → append_step F dt task correlation base t log ≡ ok log'
      → Extends log log' × (last_sequence log' ≡ last_sequence log + 1)
  unfolding append_step
  append_step-Extends t log log' h =
      let (e, made, taken) =
        bind-ok (physical_event F dt task t correlation (last_sequence log + 1) base) _ h in
      (
        append-Extends log log' e taken,
        append-last_sequence log log' e taken ∙ physical_event-sequence t _ e made,
      )

  pub append_steps-last_sequence :
      (ts : List EventType) (log log' : Log F dt)
      → append_steps F dt task correlation base ts log ≡ ok log'
      → last_sequence log' ≡ last_sequence log + length ts
  unfolding append_steps
  append_steps-last_sequence [] log log' h =
      omega (arith, ap (λ l. last_sequence l) (ok-injective h))
  append_steps-last_sequence (t ∷ ts) log log' h =
      let (l, one, more) = bind-ok (append_step F dt task correlation base t log) _ h in
      omega (arith, append_steps-last_sequence ts l log' more, (append_step-Extends t log l one).1)

  finish_failed-Extends :
      (reason : Text) (code : FailureCode) (log log' : Log F dt)
      → finish_failed F dt task correlation base reason code log ≡ ok log'
      → Extends log log'
  unfolding finish_failed
  finish_failed-Extends reason code log log' h =
      let (e, made, h1) =
        bind-ok (failed_event F dt task correlation (last_sequence log + 1) base reason code) _ h in
      let (l, taken, h2) = bind-ok (append log e) _ h1 in
      let same : l ≡ log' = ok-injective (then-ok (validate l) _ h2) in
      rw (sym same) (append-Extends log l e taken)

  finish_completed-Extends :
      (log log' : Log F dt)
      → finish_completed F dt task correlation base log ≡ ok log'
      → Extends log log'
  unfolding finish_completed
  finish_completed-Extends log log' h =
      let (l, taken, h2) =
        bind-ok (append_step F dt task correlation base task_completed log) _ h in
      let same : l ≡ log' = ok-injective (then-ok (validate l) _ h2) in
      rw (sym same) (append_step-Extends task_completed log l taken).0

  confirm_steps-Extends :
      {S : Type 0} (provider : Provider S) (cs : List OperatorConfirmation) (s : S)
      (log log' : Log F dt)
      → confirm_steps F dt provider task correlation base cs s log ≡ ok log'
      → Extends log log'
  unfolding confirm_steps
  confirm_steps-Extends provider [] s log log' h = finish_completed-Extends log log' h
  confirm_steps-Extends {S} provider (c ∷ cs) s log log' h =
      answered (provider s c.step_name c.prompt).0 (provider s c.step_name c.prompt).1
        (λ l. confirm_steps-Extends provider cs (provider s c.step_name c.prompt).0 l log') h
    where
      answered :
          (s' : S) (answer : Bool)
          → ((l : Log F dt)
              → confirm_steps F dt provider task correlation base cs s' l ≡ ok log'
              → Extends l log')
          → elim answer [
            | false ↦
                finish_failed F dt task correlation base
                  (text "operator cancelled during " ++ c.step_name)
                  manual_cancelled
                  log
            | true ↦ append_step F dt task correlation base c.event_type log >>= λ l.
                confirm_steps F dt provider task correlation base cs s' l
          ]
            ≡ ok log'
          → Extends log log'
      answered s' false rest k = finish_failed-Extends _ manual_cancelled log log' k
      answered s' true rest k =
          let (l, one, more) =
            bind-ok (append_step F dt task correlation base c.event_type log) _ k in
          Extends-trans log l log' (append_step-Extends c.event_type log l one).0 (rest l more)

  pub after_probe-Extends :
      {S : Type 0} (provider : Provider S) (s : S) (t : EventType) (log log' : Log F dt)
      → after_probe F dt provider task correlation base s t log ≡ ok log'
      → Extends log log'
  unfolding after_probe
  after_probe-Extends provider s object_found log log' h =
      confirm_steps-Extends provider operator_confirmations s log log' h
  after_probe-Extends provider s EventType.object_not_found log log' h =
      finish_failed-Extends _ object_not_found log log' h
  after_probe-Extends provider s t log log' h = finish_failed-Extends _ invalid_task log log' h
