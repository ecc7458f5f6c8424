-- ===== src/Vision.antt =====
-- robot/vision.py: the detection of markers in an image and the event that it gives. OpenCV, the
-- disk and the rounding of floats are parameters; a world is what the calls leave outside. The
-- world that an exception leaves is not modelled.
pub mod Outcome
pub mod LiveCamera
pub mod Demo
use valera_control_tower.Base.{
  ℕ, ℤ, pos, Bool, not, Option, none, some, List, [], ◌∷◌, ◌++◌, Text, text, Result, ok, raised,
  ◌>>=◌, ◌>>◌, raise_if, validation_error, hardware_mode_error, runtime_error, value_error,
  os_error, file_not_found_error,
}
use valera_control_tower.Wire.{
  Json, integer, number, string, array, object, Items, nil, cons, Fields, end, field,
}
use valera_control_tower.Tasks.Models.{
  Task, zone_value, ExecutionMode, real_vision, mode_value, member_value, FailureCode,
}
use valera_control_tower.Tasks.Evidence.{
  PurePosixPaths, EvidenceRef, create_evidence_ref, local_path,
}
use valera_control_tower.Tasks.Events.{
  Datetimes, EventType, object_found, EventEnvelope, event_envelope, event_error,
  event_schema_version,
}
use valera_control_tower.Missions.{numbered_id}
use valera_control_tower.Missions.Physical.{or_time}

-- What the code uses of `cv2`, `cv2.aruco`, numpy, and of files.
pub record Cv2 (FilePath : Type 0) : Type 1 where
  pub World : Type 0
  pub Image : Type 0
  pub F : Type 0
  -- 1.0
  pub one : F
  -- Whether `import cv2` works, and `hasattr(cv2, "aruco")`.
  pub has_cv2 : Bool
  pub has_aruco : Bool
  pub is_file : World → FilePath → Bool
  pub imread : World → FilePath → Option Image
  pub imwrite : World → FilePath → Image → World × Bool
  -- path.parent.mkdir(parents=True, exist_ok=True)
  pub make_parent : World → FilePath → Result World
  -- sha256(path.read_bytes()).hexdigest()
  pub sha256_file : World → FilePath → Result Text
  -- The ids and the corners of `detectMarkers`, each marker with the list of its points.
  pub detect_markers : Image → Option (List ℤ) × List (List (F × F))
  -- The drawing of the id and the corners into a copy.
  pub draw_marker : Image → ℤ → List (ℤ × ℤ) → Image
  -- int(round(float(x)))
  pub rounded : F → Result ℤ
  pub minus : F → F → F
  pub least : List F → F
  pub greatest : List F → F
  -- VideoCapture(index).isOpened(), and `read` with the width, height, rate and code that are set.
  -- Both can raise; `release` ends the capture.
  pub is_opened : World → ℤ → Result Bool
  pub read_frame : World → ℤ → ℤ → ℤ → ℤ → Text → Result (World × Option Image)
  pub release : World → ℤ → World

-- `VISION_SOURCE`
abbrev pub vision_source : Text
vision_source = text "valera.real_vision_fixture"

pub record PixelBox : Type 0 where
  pub x : ℤ
  pub y : ℤ
  pub width : ℤ
  pub height : ℤ

pub record Detection : Type 0 where
  pub marker_id : ℤ
  pub corners : List (ℤ × ℤ)
  pub bounding_box : PixelBox

-- `_validate_task_mode`
unfoldable pub validate_task_mode : ExecutionMode → Result (Unit {0})
validate_task_mode ExecutionMode.hardware = raised hardware_mode_error
validate_task_mode real_vision = ok tt
validate_task_mode ExecutionMode.simulation = raised validation_error

module _ (dt : Datetimes) (pl : PurePosixPaths) (cv : Cv2 pl.FilePath) where
  open dt use {Datetime}
  open pl use {FilePath, path}
  open cv use {
    World, Image, F, one, has_cv2, has_aruco, is_file, imread, imwrite, make_parent, sha256_file,
    detect_markers, draw_marker, rounded, minus, least, greatest,
  }

  abbrev rounded_points : List (F × F) → Result (List (ℤ × ℤ))
  rounded_points [] = ok []
  rounded_points ((x, y) ∷ points) = do
    i ← rounded x
    j ← rounded y
    rest ← rounded_points points
    ok ((i, j) ∷ rest)

  abbrev x_values : List (F × F) → List F
  x_values [] = []
  x_values ((x, y) ∷ points) = x ∷ x_values points

  abbrev y_values : List (F × F) → List F
  y_values [] = []
  y_values ((x, y) ∷ points) = y ∷ y_values points

  -- The box around the points of a marker.
  unfoldable pub bounding_box_of : List F → List F → Result PixelBox
  bounding_box_of xs ys = do
    x ← rounded (least xs)
    y ← rounded (least ys)
    width ← rounded (minus (greatest xs) (least xs))
    height ← rounded (minus (greatest ys) (least ys))
    ok (record { x = x; y = y; width = width; height = height })

  -- One round of the loop of `_detect_markers`.
  unfoldable pub detection_of : ℤ → List (F × F) → Result Detection
  unfolding bounding_box_of
  detection_of marker_id points = do
    corners ← rounded_points points
    box ← bounding_box_of (x_values points) (y_values points)
    ok (record { marker_id = marker_id; corners = corners; bounding_box = box })

  -- The loop over `zip(ids.flatten(), corners)`.
  unfoldable pub detections_of : List ℤ → List (List (F × F)) → Result (List Detection)
  detections_of (i ∷ ids) (points ∷ corners) = do
    detection ← detection_of i points
    rest ← detections_of ids corners
    ok (detection ∷ rest)
  detections_of _ _ = ok []

  -- `_detect_markers`
  unfoldable pub detected : Image → Result (List Detection)
  unfolding detections_of
  detected image =
      let (ids, corners) = detect_markers image in
      elim ids [ none ↦ ok [] | some found ↦ detections_of found corners ]

  -- `_require_cv2_with_aruco`
  unfoldable pub require_cv2_with_aruco : Result (Unit {0})
  require_cv2_with_aruco = do
    raise_if (not has_cv2) runtime_error
    raise_if (not has_aruco) runtime_error

  -- `_write_image`
  unfoldable pub write_image : FilePath → Image → World → Result World
  write_image file image world = do
    world' ← make_parent world file
    let (written, done) = imwrite world' file image in raise_if (not done) os_error >> ok written

  -- `_sha256_file`
  unfoldable pub checksum_of : World → FilePath → Result Text
  checksum_of world file = do hexdigest ← sha256_file world file; ok (text "sha256:" ++ hexdigest)

  -- The file of an evidence reference with an image, and the reference with its checksum.
  unfoldable pub stored :
      Text → Text → Text → FilePath → Text → Image → World → Result (World × EvidenceRef)
  unfolding write_image checksum_of local_path
  stored task_id event_id variant base_path source_adapter image world = do
    r ←
        create_evidence_ref pl task_id (event_id ++ text "-evidence") variant (text "image/png")
          (mode_value real_vision) source_adapter event_id none
    world' ← write_image (local_path pl r base_path) image world
    checksum ← checksum_of world' (local_path pl r base_path)
    ok (world', record r { checksum = some checksum })

  -- The JSON of `corners` and `bounding_box`.
  abbrev corner_items : List (ℤ × ℤ) → Items F
  corner_items [] = nil
  corner_items ((x, y) ∷ points) =
      cons (array (cons (integer x) (cons (integer y) nil))) (corner_items points)

  abbrev box_json : PixelBox → Json F
  box_json b = object (
      field (text "x") (integer b.x) (
        field (text "y") (integer b.y)
          (field (text "width") (integer b.width) (field (text "height") (integer b.height) end))))

  -- The payload of an object that is found.
  unfoldable pub found_marker_payload : Task → Detection → Fields F
  found_marker_payload task d = field (text "object_id") (string task.object_id) (
      field (text "marker_id") (integer d.marker_id) (
        field (text "detection_score") (number one) (
          field (text "pickup_zone") (string (zone_value task.pickup_zone)) (
            field (text "delivery_zone") (string (zone_value task.delivery_zone)) (
              field (text "current_target_zone") (string (zone_value task.pickup_zone)) (
                field (text "corners") (array (corner_items d.corners)) (
                  field (text "bounding_box") (box_json d.bounding_box)
                    (field (text "status") (string (text "found")) end))))))))

  -- `_not_found_event`, with the time that `occurred_at or datetime.now(...)` gives.
  unfoldable pub not_found_event :
      Task
      → Text
      → ℕ
      → Text
      → EvidenceRef
      → Datetime
      → Text
      → Text
      → Result (EventEnvelope Datetime F)
  not_found_event task event_id sequence correlation_id raw_ref time source_adapter image_context =
      do
        error ←
            event_error (member_value FailureCode.object_not_found)
              (text "no ArUco marker detected in " ++ image_context)
        event_envelope dt event_id task.task_id correlation_id sequence
            (member_value EventType.object_not_found) time source_adapter (member_value real_vision)
            (field (text "object_id") (string task.object_id)
              (field (text "status") (string (text "not_found")) end))
            event_schema_version (raw_ref ∷ []) (some error)

  -- The event of an object that is found.
  unfoldable pub found_event :
      Task
      → Text
      → ℕ
      → Text
      → EvidenceRef
      → EvidenceRef
      → Datetime
      → Text
      → Detection
      → Result (EventEnvelope Datetime F)
  found_event task event_id sequence correlation_id raw_ref annotated_ref time source_adapter d =
      event_envelope dt event_id task.task_id correlation_id sequence (member_value object_found)
        time source_adapter (member_value real_vision) (found_marker_payload task d)
        event_schema_version (raw_ref ∷ annotated_ref ∷ []) none

  -- `run_fixture_detection` from the detections on: the first of them is drawn and reported.
  unfoldable pub report :
      Task
      → Text
      → ℕ
      → Text
      → FilePath
      → Datetime
      → Text
      → Text
      → Image
      → EvidenceRef
      → World
      → List Detection
      → Result (World × EventEnvelope Datetime F)
  unfolding stored not_found_event found_event
  report task event_id sequence correlation_id base time source_adapter image_context image raw_ref
        world [] =
      do
        event ←
            not_found_event task event_id sequence correlation_id raw_ref time source_adapter
              image_context
        ok (world, event)
  report task event_id sequence correlation_id base time source_adapter image_context image raw_ref
        world (d ∷ ds) =
      do
        (world', annotated_ref) ←
            stored task.task_id event_id (text "annotated") base source_adapter
              (draw_marker image d.marker_id d.corners) world
        event ←
            found_event task event_id sequence correlation_id raw_ref annotated_ref time
              source_adapter d
        ok (world', event)

  -- The image of a file.
  unfoldable pub read_image : World → FilePath → Result Image
  read_image world file = do
    raise_if (not (is_file world file)) file_not_found_error
    elim (imread world file) [ none ↦ raised value_error | some image ↦ ok image ]

  -- `run_fixture_detection`, with the time of `datetime.now`.
  unfoldable pub run_fixture_detection :
      Task
      → FilePath
      → ℕ
      → Text
      → FilePath
      → Option Datetime
      → Datetime
      → Text
      → Text
      → World
      → Result (World × EventEnvelope Datetime F)
  unfolding validate_task_mode require_cv2_with_aruco read_image stored detected report
  run_fixture_detection task image_path sequence correlation_id base occurred_at now source_adapter
        image_context world =
      do
        validate_task_mode task.mode
        require_cv2_with_aruco
        image ← read_image world image_path
        (world', raw_ref) ←
            stored task.task_id (numbered_id correlation_id sequence ++ text "-vision") (text "raw")
              base source_adapter image world
        detections ← detected image
        report task (numbered_id correlation_id sequence ++ text "-vision") sequence correlation_id
            base (or_time occurred_at now) source_adapter image_context image raw_ref world'
            detections
