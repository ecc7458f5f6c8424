-- ===== src/Missions/HybridTotal.antt =====
-- robot/hybrid_demo.py: a hybrid mission is the simulated mission with the detection in it.
use valera_control_tower.Base.{
  ℕ, ◌≡◌, refl, sym, ap, ◌∙◌, false, arith, ◌⊎◌, inl, inr, List, [], ◌∷◌, ◌++◌, ◌+◌, Text, text,
  is_empty, Result, ok, raised, Exception, ◌>>=◌, bind-ok, then-ok, ok-injective, Result-cases,
}
use valera_control_tower.Tasks.Models.{Task, make_task, require_enum, is_simulation, simulation}
use valera_control_tower.Tasks.Evidence.{PurePosixPaths}
use valera_control_tower.Tasks.Events.{Datetimes, EventType, object_found, EventEnvelope}
use valera_control_tower.Tasks.EventLog.{TaskEventLog, is_terminal, append, validate}
use valera_control_tower.Missions.Open.{types, append-ok}
use valera_control_tower.Missions.Simulated.{
  approved_success_event_sequence, simulated_event, append_events, reject_mode,
  run_simulated_mission,
}
use valera_control_tower.Missions.SimulatedRun.{sequences, numbers, run_simulated_mission_total}
use valera_control_tower.Missions.Hybrid.{
  is_object_found, first_found, hybrid_log, simulation_task, vision_task, detect_at,
  run_hybrid_fixture_mission,
}
use valera_control_tower.Missions.HybridRun.{
  hybrid_types, found_only_at, has_found, hybrid_events, hybrid_events-types, first_found_lem,
  hybrid_log_lem,
}
use valera_control_tower.Vision.{Cv2, Detection, vision_source}
use valera_control_tower.Vision.Outcome.{IsOutcome, run_fixture_detection-IsOutcome}

simulation_task_total :
    (task_id object_id : Text)
    → is_empty task_id ≡ false
    → is_empty object_id ≡ false
    → (task : Task) × (simulation_task task_id object_id ≡ ok task)
      × (task.task_id ≡ task_id)
      × (task.mode ≡ simulation)
unfolding simulation_task make_task require_enum
simulation_task_total task_id object_id h k = rw (h, k) (_, refl, refl, refl)

vision_task_total :
    (task_id object_id : Text)
    → is_empty task_id ≡ false
    → is_empty object_id ≡ false
    → (task : Task) × (vision_task task_id object_id ≡ ok task) × (task.task_id ≡ task_id)
unfolding vision_task make_task require_enum
vision_task_total task_id object_id h k = rw (h, k) (_, refl, refl)

pub simulation_task-nonempty :
    (task_id object_id : Text) (task : Task)
    → simulation_task task_id object_id ≡ ok task
    → (is_empty task_id ≡ false) × (is_empty object_id ≡ false)
unfolding simulation_task make_task
simulation_task-nonempty task_id object_id task h = ground arith

module _ (F : Type 0) (dt : Datetimes) where
  open dt use {Datetime}

  append_events-task_id :
      (task : Task) (c : Text) (n : ℕ) (ts : List EventType) (log log' : TaskEventLog Datetime F)
      → append_events F dt task c n ts log ≡ ok log'
      → log'.task_id ≡ log.task_id
  unfolding append_events
  append_events-task_id task c n [] log log' h = ap (λ l. l.task_id) (sym (ok-injective h))
  append_events-task_id task c n (t ∷ ts) log log' h =
      let (e, made, h1) = bind-ok (simulated_event F dt task c n t) _ h in
      let (l, taken, h2) = bind-ok (append log e) _ h1 in
      append_events-task_id task c (n + 1) ts l log' h2
      ∙ ap (λ m. m.task_id) (append-ok log l e taken)

  run_simulated_mission-task_id :
      (task : Task) (log : TaskEventLog Datetime F)
      → run_simulated_mission F dt task ≡ ok log
      → log.task_id ≡ task.task_id
  unfolding run_simulated_mission
  run_simulated_mission-task_id task log h =
      let h1 = then-ok (reject_mode task.mode) _ h in
      let (l, ran, h2) =
        bind-ok
          (append_events F dt task (task.task_id ++ text "-simulation-mission") 1
            approved_success_event_sequence (record { task_id = task.task_id; events = [] }))
          _ h1 in
      let same : l ≡ log = ok-injective (then-ok (validate l) (ok l) h2) in
      ap (λ m. m.task_id) (sym same) ∙ append_events-task_id task _ 1 _ _ l ran

module _ (dt : Datetimes) (pl : PurePosixPaths) (cv : Cv2 pl.FilePath) where
  open dt use {Datetime}
  open pl use {FilePath}
  open cv use {World, F}

  IsOutcome-event_type :
      (task : Task) (n : ℕ) (c source : Text) (ds : List Detection) (e : EventEnvelope Datetime F)
      → IsOutcome dt pl cv task n c source ds e
      → (e.event_type ≡ object_found) ⊎ (e.event_type ≡ EventType.object_not_found)
  IsOutcome-event_type task n c source [] e o = inr (o.reports.0)
  IsOutcome-event_type task n c source (d ∷ ds) e o = inl (o.reports.0)

  running :
      (t : EventType)
      → (t ≡ object_found) ⊎ (t ≡ EventType.object_not_found)
      → is_terminal t ≡ false
  unfolding is_terminal
  running t h = ground arith

  -- The event of a detection at the place of another.
  detect_at-ok :
      (task : Task) (fixture base : FilePath) (now : Datetime) (found : EventEnvelope Datetime F)
      (world world' : World) (e : EventEnvelope Datetime F)
      → detect_at dt pl cv task fixture base now found world ≡ ok (world', e)
      → (e.task_id ≡ task.task_id)
        × (e.sequence ≡ found.sequence)
        × ((e.event_type ≡ object_found) ⊎ (e.event_type ≡ EventType.object_not_found))
  unfolding detect_at
  detect_at-ok task fixture base now found world world' e h =
      let (mode, (image, ds, opened, seen, o)) =
        run_fixture_detection-IsOutcome dt pl cv task fixture _ _ base _ now vision_source _ world
          world' e h in
      (o.of_task, o.numbered, IsOutcome-event_type task _ _ vision_source ds e o)

  -- The hybrid log for a detection at the place of the one object.found of a simulated log.
  detected_log :
      (task_id : Text) (task : Task) (fixture base : FilePath) (now : Datetime)
      (found : EventEnvelope Datetime F) (es : List (EventEnvelope Datetime F))
      (world world' : World) (e : EventEnvelope Datetime F)
      → task.task_id ≡ task_id
      → found.sequence ≡ 7
      → sequences es ≡ numbers 1 (types es)
      → types es ≡ approved_success_event_sequence
      → validate (record { task_id = task_id; events = es }) ≡ ok tt
      → detect_at dt pl cv task fixture base now found world ≡ ok (world', e)
      → (hybrid_log task_id e es ≡ ok (record { task_id = task_id; events = hybrid_events e es }))
        × (validate (record { task_id = task_id; events = hybrid_events e es }) ≡ ok tt)
        × ((e.event_type ≡ object_found) ⊎ (e.event_type ≡ EventType.object_not_found))
  unfolding is_object_found
  detected_log task_id task fixture base now found es world world' e named at numbered shown valid
        h =
      let (t, s, k) = detect_at-ok task fixture base now found world world' e h in
      let (made, valid') =
        hybrid_log_lem task_id e es (t ∙ named) (running e.event_type k) numbered
          (ap (λ i. found_only_at i 1 (types es)) (s ∙ at) ∙ ap (found_only_at 7 1) shown) valid in
      (made, valid', k)

  -- A simulated log with a detection in the place of object.found, or what the detection raises.
  abbrev pub with_detection :
      Text
      → List (EventEnvelope Datetime F)
      → Result (World × EventEnvelope Datetime F)
      → Result (World × TaskEventLog Datetime F)
  with_detection task_id es (raised x) = raised x
  with_detection task_id es (ok (world, e)) =
      ok (world, record { task_id = task_id; events = hybrid_events e es })

  pub run_hybrid_fixture_mission_total :
      (task_id object_id : Text) (base fixture : FilePath) (now : Datetime) (world : World)
      → is_empty task_id ≡ false
      → is_empty object_id ≡ false
      → (task : Task) × (found : EventEnvelope Datetime F) × (es : List (EventEnvelope Datetime F))
        × (movement : Task) × (simulation_task task_id object_id ≡ ok movement)
        × (run_simulated_mission F dt movement ≡ ok (record { task_id = task_id; events = es }))
        × (first_found es ≡ ok found)
        × (vision_task task_id object_id ≡ ok task)
        × (task.task_id ≡ task_id)
        × (found.sequence ≡ 7)
        × (types es ≡ approved_success_event_sequence)
        × (sequences es ≡ numbers 1 (types es))
        × (validate (record { task_id = task_id; events = es }) ≡ ok tt)
        × (run_hybrid_fixture_mission dt pl cv task_id object_id base fixture now world
            ≡ with_detection task_id es (detect_at dt pl cv task fixture base now found world))
  unfolding run_hybrid_fixture_mission is_object_found
  run_hybrid_fixture_mission_total task_id object_id base fixture now world h k =
      let (movement, made, id, mode) = simulation_task_total task_id object_id h k in
      let (log, ran, valid, shown, counted) =
        run_simulated_mission_total F dt movement (ap is_empty id ∙ h) (ap is_simulation mode) in
      let numbered = counted ∙ ap (numbers 1) (sym shown) in
      let (found, first, at) =
        first_found_lem 7 1 log.events numbered (ap (found_only_at 7 1) shown)
          (ap has_found shown) in
      let (task, made', id') = vision_task_total task_id object_id h k in
      let own : log.task_id ≡ task_id = run_simulated_mission-task_id F dt movement log ran ∙ id in
      let valid' : validate (record { task_id = task_id; events = log.events }) ≡ ok tt =
        ap (λ t. validate (record { task_id = t; events = log.events })) (sym own) ∙ valid in
      (
        task,
        found,
        log.events,
        movement,
        made,
        ran ∙ ap (λ t. ok (record { task_id = t; events = log.events })) own,
        first,
        made',
        id',
        at,
        shown,
        numbered,
        valid',
        rw made (
            rw ran (
              rw first (
                rw made' (
                  completed task found log.events id' at numbered shown valid'
                    (Result-cases (detect_at dt pl cv task fixture base now found world)))))),
      )
    where
      completed :
          (task : Task) (found : EventEnvelope Datetime F) (es : List (EventEnvelope Datetime F))
          → task.task_id ≡ task_id
          → found.sequence ≡ 7
          → sequences es ≡ numbers 1 (types es)
          → types es ≡ approved_success_event_sequence
          → validate (record { task_id = task_id; events = es }) ≡ ok tt
          → ((p : World × EventEnvelope Datetime F) × (detect_at dt pl cv task fixture base now
                  found world
                ≡ ok p))
            ⊎ ((x : Exception) × (detect_at dt pl cv task fixture base now found world ≡ raised x))
          → ◌>>=◌ {W = World × TaskEventLog Datetime F}
              (detect_at dt pl cv task fixture base now found world)
              (λ p.
                ◌>>=◌ {W = World × TaskEventLog Datetime F}
                  (hybrid_log task_id p.1 es)
                  (λ log. ok (p.0, log)))
            ≡ with_detection task_id es (detect_at dt pl cv task fixture base now found world)
      completed task found es id at numbered shown valid (inr (x, e)) = rw e refl
      completed task found es id at numbered shown valid (inl ((w, v), e)) = rw e (
          rw
            (detected_log task_id task fixture base now found es world w v id at numbered shown
              valid e).0
            refl)

  pub with_detection-ok :
      (task_id : Text) (es : List (EventEnvelope Datetime F))
      (r : Result (World × EventEnvelope Datetime F)) {p : World × TaskEventLog Datetime F}
      → with_detection task_id es r ≡ ok p
      → (w : World) × (e : EventEnvelope Datetime F) × (r ≡ ok (w, e))
        × (with_detection task_id es (ok (w, e)) ≡ ok p)
  with_detection-ok task_id es (raised x) h = cc
  with_detection-ok task_id es (ok (w, e)) h = (w, e, refl, h)

  -- The log of a hybrid mission that returns validates. It shows the approved sequence to its end
  -- in both cases: with object.found at its place, or with object.not_found there.
  pub run_hybrid_fixture_mission-ok :
      (task_id object_id : Text) (base fixture : FilePath) (now : Datetime) (world world' : World)
      (log : TaskEventLog Datetime F)
      → run_hybrid_fixture_mission dt pl cv task_id object_id base fixture now world
        ≡ ok (world', log)
      → (validate log ≡ ok tt)
        × ((t : EventType) × ((t ≡ object_found) ⊎ (t ≡ EventType.object_not_found))
            × (types log.events ≡ hybrid_types t approved_success_event_sequence))
  unfolding run_hybrid_fixture_mission
  run_hybrid_fixture_mission-ok task_id object_id base fixture now world world' log h =
      let (movement, made, rest) = bind-ok (simulation_task task_id object_id) _ h in
      let (named, object_named) = simulation_task-nonempty task_id object_id movement made in
      let (task, found, es, _, _, _, _, _, id, at, shown, numbered, valid, equation) =
        run_hybrid_fixture_mission_total task_id object_id base fixture now world named
          object_named in
      let (w, e, seen, last) =
        with_detection-ok task_id es (detect_at dt pl cv task fixture base now found world)
          (sym equation ∙ h) in
      let same : record { task_id = task_id; events = hybrid_events e es } ≡ log =
        ap (λ p. p.1) (ok-injective last) in
      let (hybrid, valid', k) =
        detected_log task_id task fixture base now found es world w e id at numbered shown valid
          seen in
      rw (sym same)
        (valid', (e.event_type, k, hybrid_events-types e es ∙ ap (hybrid_types e.event_type) shown))
