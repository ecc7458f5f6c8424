-- ===== src/Missions/PhysicalTotal.antt =====
-- robot/physical_demo.py: a run returns.
use mathlib.Core.Path.{subst}
use valera_control_tower.Base.{
  ℕ, ◌+◌, ◌<◌, ◌≡◌, refl, sym, ap, ◌∙◌, true, false, arith, Option, none, some, List, [], ◌∷◌, ◌++◌,
  Text, text, is_empty, ltb, Result, ok, ℤ, inl, inr, Bool-cases,
}
use valera_control_tower.Tasks.Models.{
  Task, require_enum, FailureCode, make_task, manual_cancelled, object_not_found, invalid_task,
}
use valera_control_tower.Tasks.Events.{
  Datetimes, EventType, task_completed, task_failed, object_found, EventEnvelope, event_envelope,
  event_error,
}
use valera_control_tower.Tasks.EventLog.{is_terminal, with_event, last_sequence}
use valera_control_tower.Missions.Open.{
  IsOpen, append-IsOpen, with_event-IsOpen, new-IsOpen, is_empty-append, numbered_id-nonempty,
}
use valera_control_tower.Missions.Physical.{
  OperatorConfirmation, operator_confirmations, opening_event_types, Provider, Log, physical_event,
  failed_event, append_step, finish_failed, append_steps, finish_completed, confirm_steps,
  after_probe, ProbeRunner, physical_task, mission, occurred_at, or_text, or_time,
  run_physical_demo,
}
use valera_control_tower.Missions.PhysicalProbe.{append_steps-last_sequence}

or_text_nonempty :
    (o : Option Text) (s : Text) → is_empty s ≡ false → is_empty (or_text o s) ≡ false
or_text_nonempty none s h = h
or_text_nonempty (some t) s h = ground arith

-- No event type of these ends a task.
abbrev Unended : List EventType → Type 0
Unended [] = Unit
Unended (t ∷ ts) = (is_terminal t ≡ false) × Unended ts

module _ (F : Type 0) (dt : Datetimes) (task : Task) (correlation : Text) (base : dt.Datetime)
    (named : is_empty task.task_id ≡ false) (correlated : is_empty correlation ≡ false) where
  open dt use {Datetime}

  -- What building an event of this type and sequence gives.
  abbrev Builds : Result (EventEnvelope Datetime F) → EventType → ℕ → Type 0
  Builds r t n =
      (e : EventEnvelope Datetime F) × (r ≡ ok e)
      × (e.task_id ≡ task.task_id)
      × (e.sequence ≡ n)
      × (e.event_type ≡ t)

  physical_event-Builds :
      (t : EventType) (n : ℕ)
      → Builds (physical_event F dt task t correlation (n + 1) base) t (n + 1)
  unfolding physical_event event_envelope
  physical_event-Builds t n =
      let positive : ltb (n + 1) 1 ≡ false = ground arith in
      rw (named, correlated, numbered_id-nonempty correlation (n + 1) correlated, positive)
        (_, refl, refl, refl, refl)

  failed_event-Builds :
      (n : ℕ) (reason : Text) (code : FailureCode)
      → is_empty reason ≡ false
      → Builds (failed_event F dt task correlation (n + 1) base reason code) task_failed (n + 1)
  unfolding failed_event event_envelope event_error
  failed_event-Builds n reason code given =
      let positive : ltb (n + 1) 1 ≡ false = ground arith in
      rw (given, named, correlated, numbered_id-nonempty correlation (n + 1) correlated, positive)
        (_, refl, refl, refl, refl)

  append_step_total :
      (t : EventType) (log : Log F dt)
      → IsOpen task.task_id log
      → is_terminal t ≡ false
      → (log' : Log F dt) × (append_step F dt task correlation base t log ≡ ok log')
        × IsOpen task.task_id log'
  unfolding append_step
  append_step_total t log o going =
      let (e, made, same, at, kind) = physical_event-Builds t (last_sequence log) in
      let later : last_sequence log < e.sequence = omega (arith, at) in
      (
        with_event log e,
        rw made (append-IsOpen task.task_id log e o same later).0,
        (with_event-IsOpen task.task_id log e o same later (ap is_terminal kind ∙ going)).0,
      )

  append_steps_total :
      (ts : List EventType) (log : Log F dt)
      → IsOpen task.task_id log
      → Unended ts
      → (log' : Log F dt) × (append_steps F dt task correlation base ts log ≡ ok log')
        × IsOpen task.task_id log'
  unfolding append_steps
  append_steps_total [] log o going = (log, refl, o)
  append_steps_total (t ∷ ts) log o going =
      let (l, one, open_l) = append_step_total t log o going.0 in
      let (m, more, open_m) = append_steps_total ts l open_l going.1 in (m, rw one more, open_m)

  finish_failed_total :
      (reason : Text) (code : FailureCode) (log : Log F dt)
      → IsOpen task.task_id log
      → is_empty reason ≡ false
      → (log' : Log F dt) × (finish_failed F dt task correlation base reason code log ≡ ok log')
  unfolding finish_failed
  finish_failed_total reason code log o given =
      let (e, made, same, at, kind) = failed_event-Builds (last_sequence log) reason code given in
      let later : last_sequence log < e.sequence = omega (arith, at) in
      let (taken, valid) = append-IsOpen task.task_id log e o same later in
      (with_event log e, rw made (rw taken (rw valid)))

  finish_completed_total :
      (log : Log F dt)
      → IsOpen task.task_id log
      → (log' : Log F dt) × (finish_completed F dt task correlation base log ≡ ok log')
  unfolding finish_completed append_step
  finish_completed_total log o =
      let (e, made, same, at, kind) = physical_event-Builds task_completed (last_sequence log) in
      let later : last_sequence log < e.sequence = omega (arith, at) in
      let (taken, valid) = append-IsOpen task.task_id log e o same later in
      (with_event log e, rw made (rw taken (rw valid)))

  -- No confirmation's event ends the task.
  abbrev Steps : List OperatorConfirmation → Type 0
  Steps [] = Unit
  Steps (c ∷ cs) = (is_terminal c.event_type ≡ false) × Steps cs

  confirm_steps_total :
      {S : Type 0} (provider : Provider S) (cs : List OperatorConfirmation) (s : S) (log : Log F dt)
      → IsOpen task.task_id log
      → Steps cs
      → (log' : Log F dt) × (confirm_steps F dt provider task correlation base cs s log ≡ ok log')
  unfolding confirm_steps
  confirm_steps_total provider [] s log o steps = finish_completed_total log o
  confirm_steps_total provider (c ∷ cs) s log o steps =
      let (l, one, open_l) = append_step_total c.event_type log o steps.0 in
      let (m, more) =
        confirm_steps_total provider cs (provider s c.step_name c.prompt).0 l open_l steps.1 in
      let (f, failing) =
        finish_failed_total (text "operator cancelled during " ++ c.step_name) manual_cancelled log
          o refl in
      elim (Bool-cases (provider s c.step_name c.prompt).1) [
        | inl given ↦ (m, rw (given, confirm_steps) (rw one more))
        | inr refused ↦ (f, rw (refused, confirm_steps) failing)
      ]

  after_probe_total :
      {S : Type 0} (provider : Provider S) (s : S) (t : EventType) (log : Log F dt)
      → IsOpen task.task_id log
      → (log' : Log F dt) × (after_probe F dt provider task correlation base s t log ≡ ok log')
  unfolding after_probe is_terminal
  after_probe_total provider s object_found log o =
      confirm_steps_total provider operator_confirmations s log o
        (refl, (refl, (refl, (refl, (refl, tt)))))
  after_probe_total provider s EventType.object_not_found log o =
      finish_failed_total _ object_not_found log o refl
  after_probe_total provider s t log o = finish_failed_total _ invalid_task log o refl

module _ (F : Type 0) (dt : Datetimes) where
  open dt use {Datetime}

  -- A probe that answers a call with an event of the task and the sequence that it is given, which
  -- does not end the task.
  pub record IsProbe (probe : ProbeRunner F dt) (task_id object_id : Text) (i : ℤ) (root : Text)
      (n : ℕ) (c : Text) (d : Datetime) : Type 0 where
    pub event : EventEnvelope Datetime F
    pub answers : probe task_id object_id i true root n c d ≡ ok event
    pub of_task : event.task_id ≡ task_id
    pub numbered : event.sequence ≡ n
    pub unended : is_terminal event.event_type ≡ false

  -- The run behind the task.
  task_run_total :
      {S : Type 0} (task : Task) (camera_index : ℤ) (root : Text) (provider : Provider S) (s : S)
      (correlation : Text) (base : Datetime) (probe : ProbeRunner F dt)
      → is_empty task.task_id ≡ false
      → is_empty correlation ≡ false
      → IsProbe probe task.task_id task.object_id camera_index root 7 correlation
          (occurred_at F dt base 7)
      → (log : Log F dt) × (mission F dt task camera_index root provider s correlation base probe
          ≡ ok log)
  unfolding mission is_terminal last_sequence
  task_run_total task camera_index root provider s correlation base probe named correlated p =
      let (opened, steps, o) =
        append_steps_total F dt task correlation base named correlated opening_event_types _
          (new-IsOpen task.task_id) (refl, (refl, (refl, (refl, (refl, (refl, tt)))))) in
      let e = p.event in
      let six : last_sequence opened ≡ 6 =
        append_steps-last_sequence F dt task correlation base opening_event_types _ opened steps in
      let seven : 7 ≡ last_sequence opened + 1 = ap (λ n. n + 1) (sym six) in
      let probed : probe task.task_id task.object_id camera_index true root
            (last_sequence opened + 1) correlation
            (occurred_at F dt base (last_sequence opened + 1))
          ≡ ok e =
        subst
          (λ n.
            probe task.task_id task.object_id camera_index true root n correlation
              (occurred_at F dt base n)
            ≡ ok e)
          seven p.answers in
      let same = p.of_task in
      let going = p.unended in
      let later : last_sequence opened < e.sequence = omega (arith, p.numbered, six) in
      let (l, ended) =
        after_probe_total F dt task correlation base named correlated provider s e.event_type
          (with_event opened e) (with_event-IsOpen task.task_id opened e o same later going).0 in
      (l, rw steps (rw probed (rw (append-IsOpen task.task_id opened e o same later).0 ended)))

  -- With a task id and an object id, the camera enabled and a probe that answers the one call of
  -- the run, for the sequence 7, every run returns a log, whatever the operator answers.
  pub run_physical_demo_total :
      {S : Type 0} (task_id object_id : Text) (camera_index : ℤ) (root : Text)
      (provider : Provider S) (s : S) (correlation_id : Option Text) (started : Option Datetime)
      (now : Datetime) (probe : ProbeRunner F dt)
      → is_empty task_id ≡ false
      → is_empty object_id ≡ false
      → IsProbe probe task_id object_id camera_index root 7
          (or_text correlation_id (task_id ++ text "-physical-demo"))
          (occurred_at F dt (or_time started now) 7)
      → (log : Log F dt) × (run_physical_demo F dt task_id object_id camera_index true root provider
            s correlation_id started now probe
          ≡ ok log)
  unfolding run_physical_demo physical_task make_task require_enum
  run_physical_demo_total task_id object_id camera_index root provider s correlation_id started now
        probe named object_named p =
      rw (named, object_named)
        (task_run_total _ camera_index root provider s _ _ probe named
          (or_text_nonempty correlation_id _ (is_empty-append task_id _ named)) p)
