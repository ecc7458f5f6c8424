-- ===== src/Vision/LiveCamera.antt =====
-- robot/live_camera.py: one frame of the camera, and the marker probe of the physical demo.
use valera_control_tower.Base.{
  ℕ, ℤ, pos, Bool, not, Option, none, some, Text, text, Result, ok, raised, ◌>>=◌, ◌>>◌, raise_if,
  live_camera_disabled_error, runtime_error,
}
use valera_control_tower.Tasks.Models.{
  Task, make_task, pickup_zone, delivery_zone, real_vision, member_value,
}
use valera_control_tower.Tasks.Evidence.{PurePosixPaths}
use valera_control_tower.Tasks.Events.{Datetimes, EventEnvelope}
use valera_control_tower.Missions.Physical.{or_text, ProbeRunner}
use valera_control_tower.Vision.{Cv2, write_image, run_fixture_detection}

-- `LIVE_CAMERA_SOURCE`
abbrev pub live_camera_source : Text
live_camera_source = text "valera.live_camera_probe"

-- The task of `run_live_camera_marker_probe`.
unfoldable pub probe_task : Text → Text → Result Task
probe_task task_id object_id =
    make_task task_id object_id (member_value pickup_zone) (member_value delivery_zone)
      (member_value real_vision)
      (text "Live camera marker probe; perception only, no robot movement")

module _ (dt : Datetimes) (pl : PurePosixPaths) (cv : Cv2 pl.FilePath) where
  open dt use {Datetime}
  open pl use {FilePath, path, join}
  open cv use {World, Image, F, has_cv2, is_opened, read_frame, release}

  -- `not ok or frame is None`
  unfoldable pub require_frame : Option Image → Result Image
  require_frame none = raised runtime_error
  require_frame (some image) = ok image

  -- `capture_live_camera_frame` with the module `cv2` and the defaults of the width, the height,
  -- the rate and the code. It writes the frame as `_write_image` does, and releases the camera.
  unfoldable pub capture_live_camera_frame : ℤ → FilePath → Bool → World → Result World
  unfolding require_frame
  capture_live_camera_frame camera_index output_path enabled world = do
    raise_if (not enabled) live_camera_disabled_error
    raise_if (not has_cv2) runtime_error
    opened ← is_opened world camera_index
    raise_if (not opened) runtime_error
    (world', frame) ← read_frame world camera_index (pos 1280) (pos 720) (pos 30) (text "MJPG")
    image ← require_frame frame
    written ← write_image dt pl cv output_path image world'
    ok (release written camera_index)

  -- The file of the frame.
  abbrev pub frame_path : FilePath → FilePath
  frame_path output_root = join (join output_root (text "tmp")) (text "live-camera-probe-frame.png")

  -- `run_live_camera_marker_probe`, with the time of `datetime.now`.
  unfoldable pub run_live_camera_marker_probe :
      Text
      → Text
      → ℤ
      → Bool
      → FilePath
      → ℕ
      → Option Text
      → Option Datetime
      → Datetime
      → World
      → Result (World × EventEnvelope Datetime F)
  unfolding capture_live_camera_frame probe_task
  run_live_camera_marker_probe task_id object_id camera_index enabled output_root sequence
        correlation_id occurred_at now world =
      do
        raise_if (not enabled) live_camera_disabled_error
        world' ← capture_live_camera_frame camera_index (frame_path output_root) enabled world
        task ← probe_task task_id object_id
        run_fixture_detection dt pl cv task (frame_path output_root) sequence
            (or_text correlation_id task_id) output_root occurred_at now live_camera_source
            (text "live camera frame") world'

  -- The probe as the runner of a physical demo, which calls it once, in the given world.
  unfoldable pub live_probe_runner : Datetime → World → ProbeRunner F dt
  unfolding run_live_camera_marker_probe
  live_probe_runner now world task_id object_id camera_index enabled output_root sequence
        correlation_id occurred_at =
      do
        (world', event) ←
            run_live_camera_marker_probe task_id object_id camera_index enabled (path output_root)
              sequence (some correlation_id) (some occurred_at) now world
        ok event
