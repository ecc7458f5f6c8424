-- ===== src/Probe/Capture.antt =====
-- scripts/probe_cameras.py: the probe of one camera, and the run over all that are chosen. OpenCV,
-- the disk and the paths are the record `CameraDriver`, whose calls hand a world on.
use valera_control_tower.Base.{
  ℕ, Bool, true, false, ◌&&◌, not, Option, none, some, List, [], ◌∷◌, ◌++◌, Text, text, ℤ, pos,
  Result, ok, raised, Exception, ◌>>=◌, runtime_error, if◌then◌else◌,
}
use valera_control_tower.Wire.{Json, null, boolean, integer, string, Fields, end, field}
use valera_control_tower.Missions.{set_field}
use valera_control_tower.OutputCheck.{get}
use valera_control_tower.Probe.{CameraProfile, select_profiles}

-- What the probe calls: `cv2.VideoCapture` with `CAP_V4L2`, the methods of the capture, `imwrite`,
-- `mkdir` of the output's directory, and the tests and the resolution of a path. `capture_get` is
-- `int` of `capture.get`. A call returns or raises, in the world that it leaves.
pub record CameraDriver : Type 1 where
  pub World : Type 0
  pub Frame : Type 0
  pub has_cv2 : Bool
  pub exists : Text → World → Bool
  pub resolve : Text → World → Text
  pub video_capture : Text → World → World × Result (Unit {0})
  pub is_opened : World → World × Result Bool
  pub set_mode : CameraProfile → World → World × Result (Unit {0})
  pub read : World → World × Result (Bool × Option Frame)
  pub mkdir : Text → World → World × Result (Unit {0})
  pub imwrite : Text → Frame → World → World × Result Bool
  pub capture_get : Text → World → World × Result ℤ
  pub release : World → World
  pub exception_text : Exception → Text

module _ {F : Type 0} where
  -- The entries of `result` at the start.
  unfoldable pub initial_result : CameraProfile → Fields F
  initial_result p = field (text "name") (string p.name) (
      field (text "configured_path") (string p.path) (
        field (text "requested_width") (integer (pos p.width)) (
          field (text "requested_height") (integer (pos p.height)) (
            field (text "requested_fps") (integer (pos p.fps)) (
              field (text "requested_fourcc") (string p.fourcc) (
                field (text "ok") (boolean false)
                  (field (text "frame_path") null (field (text "error") null end))))))))

  -- `result["error"] = message`
  unfoldable pub set_error : Text → Fields F → Fields F
  unfolding set_field
  set_error message result = set_field (text "error") (string message) result

module _ (F : Type 0) (driver : CameraDriver) where
  open driver use {World, Frame}

  -- The world, the entries of `result`, and whether an exception has been raised.
  abbrev pub Progress : Type 0
  Progress = World × Fields F × Result (Unit {0})

  -- A call inside `try`: an exception leaves the entries as they are.
  unfoldable pub on : {A : Type 0} → Fields F → World × Result A → (A → World → Progress) → Progress
  on result (w, raised e) next = (w, result, raised e)
  on result (w, ok a) next = next a w

  abbrev returning : Text → Fields F → World → Progress
  returning message result w = (w, set_error message result, ok tt)

  -- The modes that the capture reports, at the end of `try`.
  unfoldable pub read_modes : Fields F → World → Progress
  unfolding set_field
  read_modes result w = on result (driver.capture_get (text "CAP_PROP_FRAME_WIDTH") w) λ n w.
      let with_width = set_field (text "actual_width") (integer n) result in
      on with_width (driver.capture_get (text "CAP_PROP_FRAME_HEIGHT") w) λ n w.
        let with_height = set_field (text "actual_height") (integer n) with_width in
        on with_height (driver.capture_get (text "CAP_PROP_FPS") w)
          λ n w. (w, set_field (text "actual_fps") (integer n) with_height, ok tt)

  unfoldable pub write_frame : Text → Frame → Fields F → World → Progress
  unfolding read_modes set_error set_field
  write_frame output frame result w = on result (driver.mkdir output w) λ done w.
      on result (driver.imwrite output frame w) λ written w.
        if not written
        then returning (text "failed to write frame to " ++ output) result w
        else read_modes
            (set_field (text "frame_path") (string output)
              (set_field (text "ok") (boolean true) result))
            w

  -- `not ok or frame is None`, or the frame.
  abbrev pub frame_of : Bool × Option Frame → Option Frame
  frame_of (true, frame) = frame
  frame_of (false, frame) = none

  -- `ok, frame = capture.read()` and what follows it.
  unfoldable pub take_frame : CameraProfile → Text → Fields F → World → Progress
  unfolding write_frame
  take_frame p output result w = on result (driver.set_mode p w) λ done w.
      on result (driver.read w) λ answer w. elim (frame_of answer) [
        | some frame ↦ write_frame output frame result w
        | none ↦ returning (text "could not read one frame from " ++ p.path) result w
      ]

  -- The body of `try` once the capture is there.
  unfoldable pub use_capture : CameraProfile → Text → Text → Fields F → World → Progress
  unfolding take_frame
  use_capture p resolved output result w = on result (driver.is_opened w) λ opened w.
      if not opened
      then returning
          (text "could not open " ++ p.path ++ text " (resolved: " ++ resolved ++ text ")") result w
      else take_frame p output result w

  -- `except Exception`
  abbrev pub after_except : CameraProfile → Fields F → Result (Unit {0}) → Fields F
  after_except p result (ok done) = result
  after_except p result (raised e) =
      set_error (text "cv2 error for " ++ p.path ++ text ": " ++ driver.exception_text e) result

  -- `try` with its `except` and its `finally`, which releases a capture that is there.
  unfoldable pub try_capture : CameraProfile → Text → Text → Fields F → World → World × Fields F
  unfolding use_capture
  try_capture p resolved output result w =
      let (opening, capture) = driver.video_capture resolved w in
      elim capture [
        | raised e ↦ (opening, after_except p result (raised e))
        | ok done ↦
            let (used, entries, outcome) = use_capture p resolved output result opening in
            (driver.release used, after_except p entries outcome)
      ]

  -- `probe_camera`
  unfoldable pub probe_camera : CameraProfile → Text → World → World × Result (Fields F)
  unfolding initial_result set_error set_field try_capture
  probe_camera p output w =
      if not driver.has_cv2
      then (w, raised runtime_error)
      else if not (driver.exists p.path w)
      then (w, ok (set_error (text "device path does not exist: " ++ p.path) (initial_result p)))
      else let resolved = driver.resolve p.path w in
        let result = set_field (text "resolved_path") (string resolved) (initial_result p) in
        let (w', entries) = try_capture p resolved output result w in (w', ok entries)

  -- The loop of `main` over the profiles; `output` is `output_dir / f"{profile.name}.jpg"`.
  unfoldable pub probe_all :
      (Text → Text) → List CameraProfile → World → World × Result (List (Fields F))
  unfolding probe_camera
  probe_all output [] w = (w, ok [])
  probe_all output (p ∷ ps) w =
      let (w', probed) = probe_camera p (output p.name) w in
      let (w'', rest) = probe_all output ps w' in
      elim probed [
        | raised e ↦ (w', raised e)
        | ok entries ↦ (w'', rest >>= λ results. ok (entries ∷ results))
      ]

  abbrev is_true : Option (Json F) → Bool
  is_true (some (boolean b)) = b
  is_true _ = false

  -- `all(result["ok"] for result in results)`
  unfoldable pub all_ok : List (Fields F) → Bool
  unfolding get
  all_ok [] = true
  all_ok (result ∷ results) = is_true (get (text "ok") result) && all_ok results

  -- `main` from the choice of the profiles on: its exit code, without the report and the console.
  unfoldable pub main : (Text → Text) → List Text → World → World × Result ℕ
  unfolding select_profiles probe_all all_ok
  main output cameras w = elim (select_profiles cameras) [
    | raised e ↦ (w, ok 2)
    | ok profiles ↦
        let (w', probed) = probe_all output profiles w in
        (w', probed >>= λ results. ok (if all_ok results then 0 else 1))
  ]
