-- ===== src/Missions/SimulatedRun.antt =====
-- robot/sim_executor.py: a simulated mission runs through.
use valera_control_tower.Base.{
  ℕ, ◌+◌, ◌<◌, ◌≡◌, refl, sym, ap, ◌∙◌, true, false, arith, List, [], ◌∷◌, ◌++◌, Text, text,
  is_empty, ltb, ok,
}
use mathlib.Core.List.{append-nil, append_assoc}
use valera_control_tower.Tasks.Models.{Task, is_simulation}
use valera_control_tower.Tasks.Events.{Datetimes, EventType, EventEnvelope, event_envelope}
use valera_control_tower.Tasks.EventLog.{
  TaskEventLog, is_terminal, with_event, append, validate, last_sequence, sequence_of_last,
}
use valera_control_tower.Missions.Open.{
  IsOpen, append-IsOpen, with_event-IsOpen, new-IsOpen, is_empty-append, numbered_id-nonempty,
  types, types-snoc,
}
use valera_control_tower.Missions.Simulated.{
  approved_success_event_sequence, simulated_event, append_events, reject_mode,
  run_simulated_mission,
}

module _ {D F : Type 0} where
  abbrev pub sequences : List (EventEnvelope D F) → List ℕ
  sequences [] = []
  sequences (e ∷ es) = e.sequence ∷ sequences es

  sequences-snoc :
      (es : List (EventEnvelope D F)) (e : EventEnvelope D F)
      → sequences (es ++ e ∷ []) ≡ sequences es ++ e.sequence ∷ []
  sequences-snoc [] e = refl
  sequences-snoc (f ∷ es) e = cc (sequences-snoc es e)

-- n, n + 1, ... for each element.
abbrev pub numbers : ℕ → List EventType → List ℕ
numbers n [] = []
numbers n (t ∷ ts) = n ∷ numbers (n + 1) ts

-- Only the last of these may end a task.
abbrev EndsLast : List EventType → Type 0
EndsLast [] = Unit
EndsLast (t ∷ []) = Unit
EndsLast (t ∷ u ∷ us) = (is_terminal t ≡ false) × EndsLast (u ∷ us)

module _ (F : Type 0) (dt : Datetimes) (task : Task) (correlation : Text)
    (named : is_empty task.task_id ≡ false) (correlated : is_empty correlation ≡ false) where
  open dt use {Datetime}

  simulated_event_built :
      (t : EventType) (n : ℕ)
      → 0 < n
      → (e : EventEnvelope Datetime F) × (simulated_event F dt task correlation n t ≡ ok e)
        × (e.task_id ≡ task.task_id)
        × (e.sequence ≡ n)
        × (e.event_type ≡ t)
  unfolding simulated_event event_envelope
  simulated_event_built t n pos_n =
      let positive : ltb n 1 ≡ false = ground arith in
      rw (named, correlated, numbered_id-nonempty correlation n correlated, positive)
        (_, refl, refl, refl, refl)

  -- One round of the loop on an open log.
  step_built :
      (log : TaskEventLog Datetime F) (t : EventType) (n : ℕ)
      → IsOpen task.task_id log
      → last_sequence log < n
      → (e : EventEnvelope Datetime F) × (simulated_event F dt task correlation n t ≡ ok e)
        × (append log e ≡ ok (with_event log e))
        × (validate (with_event log e) ≡ ok tt)
        × (types (with_event log e).events ≡ types log.events ++ t ∷ [])
        × (sequences (with_event log e).events ≡ sequences log.events ++ n ∷ [])
        × (is_terminal t ≡ false
            → IsOpen task.task_id (with_event log e) × (last_sequence (with_event log e) ≡ n))
  step_built log t n o lt =
      let (e, made, same, at, kind) = simulated_event_built t n (omega arith) in
      let later : last_sequence log < e.sequence = omega (arith, at) in
      let (taken, valid) = append-IsOpen task.task_id log e o same later in
      (
        e,
        made,
        taken,
        valid,
        types-snoc log.events e ∙ ap (λ u. types log.events ++ u ∷ []) kind,
        sequences-snoc log.events e ∙ ap (λ u. sequences log.events ++ u ∷ []) at,
        λ going.
            let (o', l') =
              with_event-IsOpen task.task_id log e o same later (ap is_terminal kind ∙ going) in
            (o', l' ∙ at),
      )

  append_events_total :
      (ts : List EventType) (log : TaskEventLog Datetime F) (n : ℕ)
      → IsOpen task.task_id log
      → last_sequence log < n
      → EndsLast ts
      → (log' : TaskEventLog Datetime F) × (append_events F dt task correlation n ts log ≡ ok log')
        × (validate log' ≡ ok tt)
        × (types log'.events ≡ types log.events ++ ts)
        × (sequences log'.events ≡ sequences log.events ++ numbers n ts)
  unfolding append_events
  append_events_total [] log n o lt ends = (
    log,
    refl,
    o.validated,
    sym (append-nil (types log.events)),
    sym (append-nil (sequences log.events)),
  )
  append_events_total (t ∷ []) log n o lt ends =
      let (e, made, taken, valid, shown, counted, going) = step_built log t n o lt in
      (with_event log e, rw made (rw taken), valid, shown, counted)
  append_events_total (t ∷ u ∷ us) log n o lt ends =
      let (e, made, taken, valid, shown, counted, going) = step_built log t n o lt in
      let (o', last) = going ends.0 in
      let (l, more, valid', shown', counted') =
        append_events_total (u ∷ us) (with_event log e) (n + 1) o' (omega (arith, last)) ends.1 in
      (
        l,
        rw made (rw taken more),
        valid',
        shown' ∙ ap (λ v. v ++ u ∷ us) shown ∙ append_assoc (types log.events) (t ∷ []) (u ∷ us),
        counted'
            ∙ ap (λ v. v ++ numbers (n + 1) (u ∷ us)) counted
            ∙ append_assoc (sequences log.events) (n ∷ []) (numbers (n + 1) (u ∷ us)),
      )

module _ (F : Type 0) (dt : Datetimes) where
  open dt use {Datetime}

  -- A simulation task with an id always runs through: the log validates and shows exactly the
  -- approved sequence, numbered from 1.
  pub run_simulated_mission_total :
      (task : Task)
      → is_empty task.task_id ≡ false
      → is_simulation task.mode ≡ true
      → (log : TaskEventLog Datetime F) × (run_simulated_mission F dt task ≡ ok log)
        × (validate log ≡ ok tt)
        × (types log.events ≡ approved_success_event_sequence)
        × (sequences log.events ≡ numbers 1 approved_success_event_sequence)
  unfolding run_simulated_mission reject_mode is_terminal last_sequence sequence_of_last
  run_simulated_mission_total task named simulated =
      let (log, ran, valid, shown, counted) =
        append_events_total F dt task (task.task_id ++ text "-simulation-mission") named
          (is_empty-append task.task_id _ named) approved_success_event_sequence _ 1
          (new-IsOpen task.task_id) (omega arith)
          (
            refl,
            (
              refl,
              (
                refl,
                (refl, (refl, (refl, (refl, (refl, (refl, (refl, (refl, (refl, (refl, tt)))))))))),
              ),
            ),
          ) in
      (log, rw simulated (rw ran (rw valid)), valid, shown, counted)
