-- ===== src/Vision/Demo.antt =====
-- robot/physical_demo.py over robot/live_camera.py: the demo with the live camera as its probe.
use valera_control_tower.Base.{
  ℕ, ℤ, ◌≡◌, sym, arith, Bool, true, Option, some, List, [], ◌∷◌, ◌++◌, Text, text, ok, bind-ok,
  ok-injective,
}
use valera_control_tower.Tasks.Models.{Task, make_task, require_enum}
use valera_control_tower.Tasks.Evidence.{PurePosixPaths}
use valera_control_tower.Tasks.Events.{
  Datetimes, EventType, task_created, task_completed, object_found, EventEnvelope,
}
use valera_control_tower.Missions.Open.{types}
use valera_control_tower.Missions.Physical.{
  Log, Provider, run_physical_demo, physical_demo_success_event_sequence, operator_confirmations,
  opening_event_types, or_text,
}
use valera_control_tower.Missions.PhysicalTrace.{run_physical_demo-ok}
use valera_control_tower.Missions.PhysicalSafety.{
  all_confirmed, last_type, run_physical_demo-confirmed,
}
use valera_control_tower.Vision.{Cv2, Detection, detected}
use valera_control_tower.Vision.Outcome.{IsOutcome, run_fixture_detection-IsOutcome}
use valera_control_tower.Vision.LiveCamera.{
  live_camera_source, probe_task, frame_path, capture_live_camera_frame,
  run_live_camera_marker_probe, live_probe_runner,
}

probe_task-ok :
    (task_id object_id : Text) (task : Task)
    → probe_task task_id object_id ≡ ok task
    → (task.task_id ≡ task_id) × (task.object_id ≡ object_id)
unfolding probe_task make_task require_enum
probe_task-ok task_id object_id task h = ground arith

module _ (dt : Datetimes) (pl : PurePosixPaths) (cv : Cv2 pl.FilePath) where
  open dt use {Datetime}
  open pl use {path}
  open cv use {World, Image, F, imread}

  -- A capture that starts in the world `start` and returns, the image that is read from its file
  -- in the world it leaves, the detections in it, and the event they give.
  pub record IsProbed (start : World) (i : ℤ) (task_id object_id root correlation : Text) (n : ℕ)
      (ds : List Detection) (e : EventEnvelope Datetime F) : Type 0 where
    pub task : Task
    pub same_task : task.task_id ≡ task_id
    pub same_object : task.object_id ≡ object_id
    pub world : World
    pub captured :
        capture_live_camera_frame dt pl cv i (frame_path dt pl cv (path root)) true start ≡ ok world
    pub image : Image
    pub frame : imread world (frame_path dt pl cv (path root)) ≡ some image
    pub markers : detected dt pl cv image ≡ ok ds
    pub outcome : IsOutcome dt pl cv task n correlation live_camera_source ds e

  live_probe_runner-IsProbed :
      (now : Datetime) (world : World) (task_id object_id : Text) (i : ℤ) (root : Text) (n : ℕ)
      (c : Text) (d : Datetime) (e : EventEnvelope Datetime F)
      → live_probe_runner dt pl cv now world task_id object_id i true root n c d ≡ ok e
      → (ds : List Detection) × IsProbed world i task_id object_id root
          (or_text (some c) task_id)
          n
          ds
          e
  unfolding live_probe_runner run_live_camera_marker_probe
  live_probe_runner-IsProbed now world task_id object_id i root n c d e h =
      let ((w, x), ran, h1) =
        bind-ok
          (run_live_camera_marker_probe dt pl cv task_id object_id i true (path root) n (some c)
            (some d) now world)
          _ h in
      let same : x ≡ e = ok-injective h1 in
      let (w1, captured, h2) =
        bind-ok (capture_live_camera_frame dt pl cv i (frame_path dt pl cv (path root)) true world)
          _ ran in
      let (task, made, h3) = bind-ok (probe_task task_id object_id) _ h2 in
      let (t, o) = probe_task-ok task_id object_id task made in
      let (mode, (image, ds, opened, found, outcome)) =
        run_fixture_detection-IsOutcome dt pl cv task _ n _ _ (some d) now live_camera_source _ w1 w
          x h3 in
      rw (sym same) (
        ds,
        record {
          task = task;
          same_task = t;
          same_object = o;
          world = w1;
          captured = captured;
          image = image;
          frame = opened;
          markers = found;
          outcome = outcome;
        },
      )

  -- What the opening of the success sequence says of the event behind it.
  found_of :
      {ts us : List EventType} (t : EventType)
      → us ≡ opening_event_types ++ t ∷ ts
      → us ≡ physical_demo_success_event_sequence
      → t ≡ object_found
  found_of t h k = cc

  has_detection :
      (start : World) (i : ℤ) (task_id object_id root c : Text) (n : ℕ) (ds : List Detection)
      (e : EventEnvelope Datetime F)
      → IsProbed start i task_id object_id root c n ds e
      → e.event_type ≡ object_found
      → (d : Detection) × (rest : List Detection) × IsProbed start i task_id object_id root c n
          (d ∷ rest)
          e
  has_detection start i task_id object_id root c n [] e p h = cc (p.outcome.reports.0)
  has_detection start i task_id object_id root c n (d ∷ rest) e p h = (d, rest, p)

  -- A physical demo with the live camera that returns a log whose last event is task.completed
  -- shows the success sequence, the operator confirmed every step, and the capture of the camera's
  -- frame returned; the image read from the frame's file in the world that the capture left has at
  -- least one marker. Event number 7 of the log is the probe's: it is for the demo's task and
  -- object, reports the first marker, and has its evidence in the directory of the task.
  pub run_physical_demo-IsProbed :
      {S : Type 0} (task_id object_id : Text) (i : ℤ) (enabled : Bool) (root : Text)
      (provider : Provider S) (s : S) (correlation_id : Option Text) (started : Option Datetime)
      (now taken_at : Datetime) (world : World) (log : Log F dt)
      → run_physical_demo F dt task_id object_id i enabled root provider s correlation_id started
          now
          (live_probe_runner dt pl cv taken_at world)
        ≡ ok log
      → last_type task_created (types log.events) ≡ task_completed
      → (types log.events ≡ physical_demo_success_event_sequence)
        × (all_confirmed provider operator_confirmations s ≡ true)
        × ((d : Detection) × (ds : List Detection) × (e : EventEnvelope Datetime F) × (before : List
              (EventEnvelope Datetime F))
            × (after : List (EventEnvelope Datetime F)) × (log.events ≡ before ++ e ∷ after)
            × (types before ≡ opening_event_types)
            × IsProbed world i task_id object_id root
                (or_text (some (or_text correlation_id (task_id ++ text "-physical-demo"))) task_id)
                7
                (d ∷ ds)
                e)
  run_physical_demo-IsProbed task_id object_id i enabled root provider s correlation_id started now
        taken_at world log h last =
      let probe = live_probe_runner dt pl cv taken_at world in
      let (exact, all) =
        run_physical_demo-confirmed F dt task_id object_id i enabled root provider s correlation_id
          started now probe log h last in
      let (on, valid, (e, before, after, probed, placed, opened, shown)) =
        run_physical_demo-ok F dt task_id object_id i enabled root provider s correlation_id started
          now probe log h in
      let (ds, p) =
        live_probe_runner-IsProbed taken_at world task_id object_id i root 7 _ _ e probed in
      let (d, rest, p') =
        has_detection world i task_id object_id root _ 7 ds e p
          (found_of e.event_type shown exact) in
      (exact, all, (d, rest, e, before, after, placed, opened, p'))
