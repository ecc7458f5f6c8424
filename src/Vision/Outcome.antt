-- ===== src/Vision/Outcome.antt =====
-- robot/vision.py: what a call of `run_fixture_detection` that returns has done.
use valera_control_tower.Base.{
  ℕ, ◌≡◌, sym, ap, arith, Option, none, some, List, [], ◌∷◌, ◌++◌, All, Text, text, length, ok,
  bind-ok, then-ok, check-ok, ok-injective,
}
use valera_control_tower.Wire.{Fields}
use valera_control_tower.Tasks.Models.{
  Task, ExecutionMode, real_vision, member_value, mode_value, require_enum, FailureCode,
}
use valera_control_tower.Tasks.Evidence.{
  PurePosixPaths, EvidenceRef, create_evidence_ref, create_evidence_ref-ok, evidence_ref,
  validate_for_task, local_path,
}
use valera_control_tower.Tasks.Events.{
  Datetimes, EventType, object_found, EventEnvelope, EventError, event_envelope, event_error,
}
use valera_control_tower.Missions.{numbered_id}
use valera_control_tower.Missions.Physical.{or_time}
use valera_control_tower.Vision.{
  Cv2, Detection, validate_task_mode, require_cv2_with_aruco, read_image, write_image, checksum_of,
  stored, detected, report, not_found_event, found_event, found_marker_payload,
  run_fixture_detection,
}

-- A reference that lies in the evidence directory of a task and names the event it belongs to.
pub record BelongsTo (pl : PurePosixPaths) (task_id event_id source : Text) (r : EvidenceRef)
    : Type 0 where
  pub in_task : validate_for_task pl r task_id ≡ ok tt
  pub linked : r.linked_event_id ≡ event_id
  pub by_source : r.source_adapter ≡ source

evidence_ref-ok :
    (pl : PurePosixPaths) (i path media mode source event : Text) (checksum : Option Text)
    (r : EvidenceRef)
    → evidence_ref pl i path media mode source event checksum ≡ ok r
    → (r.linked_event_id ≡ event) × (r.source_adapter ≡ source)
unfolding evidence_ref
evidence_ref-ok pl i path media mode source event checksum r h = ground arith

create_evidence_ref-BelongsTo :
    (pl : PurePosixPaths) (task_id i variant media mode source event : Text)
    (checksum : Option Text) (r : EvidenceRef)
    → create_evidence_ref pl task_id i variant media mode source event checksum ≡ ok r
    → BelongsTo pl task_id event source r
create_evidence_ref-BelongsTo pl task_id i variant media mode source event checksum r h =
    let (relative, built, inside) =
      create_evidence_ref-ok pl task_id i variant media mode source event checksum r h in
    let (l, s) = evidence_ref-ok pl i relative media mode source event checksum r built in
    record { in_task = inside; linked = l; by_source = s }

-- The checksum is no part of it.
checksum-BelongsTo :
    (pl : PurePosixPaths) (task_id event_id source : Text) (checksum : Option Text)
    (r : EvidenceRef)
    → BelongsTo pl task_id event_id source r
    → BelongsTo pl task_id event_id source (record r { checksum = checksum })
unfolding validate_for_task
checksum-BelongsTo pl task_id event_id source checksum r b = record {
  in_task = b.in_task;
  linked = b.linked;
  by_source = b.by_source;
}

module _ {F : Type 0} (dt : Datetimes) where
  open dt use {Datetime}

  -- An envelope that is built from a member of its enumerations has the fields it is given.
  pub event_envelope-ok :
      (i t c : Text) (n : ℕ) (k : EventType) (at : Datetime) (source : Text) (m : ExecutionMode)
      (p : Fields F) (v : Text) (refs : List EvidenceRef) (x : Option EventError)
      (e : EventEnvelope Datetime F)
      → event_envelope dt i t c n (member_value k) at source (member_value m) p v refs x ≡ ok e
      → ((e.event_id ≡ i) × (e.task_id ≡ t) × (e.correlation_id ≡ c) × (e.sequence ≡ n))
        × ((e.event_type ≡ k) × (e.source ≡ source) × (e.mode ≡ m))
        × ((e.payload ≡ p) × (e.evidence_refs ≡ refs) × (e.error ≡ x))
  unfolding event_envelope require_enum
  event_envelope-ok i t c n k at source m p v refs x e h = ground arith

module _ (dt : Datetimes) (pl : PurePosixPaths) (cv : Cv2 pl.FilePath) where
  open dt use {Datetime}
  open pl use {FilePath}
  open cv use {World, Image, F, imread, draw_marker}

  -- What the event says of the detections: the first of them, or that there is none.
  abbrev pub Reports : Task → List Detection → EventEnvelope Datetime F → Type 0
  Reports task [] e =
      (e.event_type ≡ EventType.object_not_found) × ((error : EventError) × (e.error ≡ some error))
  Reports task (d ∷ ds) e =
      (e.event_type ≡ object_found)
      × (e.error ≡ none)
      × (e.payload ≡ found_marker_payload dt pl cv task d)

  -- The raw image, and the annotated one if there is a marker.
  abbrev pub images_of : List Detection → ℕ
  images_of [] = 1
  images_of (d ∷ ds) = 2

  -- An event of a vision run for a task.
  pub record IsOutcome (task : Task) (sequence : ℕ) (correlation_id source : Text)
      (ds : List Detection) (e : EventEnvelope Datetime F) : Type 0 where
    pub of_task : e.task_id ≡ task.task_id
    pub numbered : e.sequence ≡ sequence
    pub named : e.event_id ≡ numbered_id correlation_id sequence ++ text "-vision"
    pub correlated : e.correlation_id ≡ correlation_id
    pub seen : e.mode ≡ real_vision
    pub evidence : All (BelongsTo pl task.task_id e.event_id source) e.evidence_refs
    pub counted : length e.evidence_refs ≡ images_of ds
    pub reports : Reports task ds e

  stored-BelongsTo :
      (task_id event_id variant : Text) (base : FilePath) (source : Text) (image : Image)
      (world world' : World) (r : EvidenceRef)
      → stored dt pl cv task_id event_id variant base source image world ≡ ok (world', r)
      → BelongsTo pl task_id event_id source r
  unfolding stored
  stored-BelongsTo task_id event_id variant base source image world world' r h =
      let (e, made, h1) =
        bind-ok
          (create_evidence_ref pl task_id (event_id ++ text "-evidence") variant (text "image/png")
            (mode_value real_vision) source event_id none)
          _ h in
      let (w, wrote, h2) = bind-ok (write_image dt pl cv (local_path pl e base) image world) _ h1 in
      let (s, sum, h3) = bind-ok (checksum_of dt pl cv w (local_path pl e base)) _ h2 in
      let same : (w, record e { checksum = some s }) ≡ (world', r) = ok-injective h3 in
      rw (sym (ap (λ p. p.1) same)) (
        checksum-BelongsTo pl task_id event_id source (some s) e
          (create_evidence_ref-BelongsTo pl task_id _ variant _ _ source event_id none e made))

  not_found_event-IsOutcome :
      (task : Task) (n : ℕ) (c : Text) (raw : EvidenceRef) (time : Datetime) (source context : Text)
      (e : EventEnvelope Datetime F)
      → BelongsTo pl task.task_id (numbered_id c n ++ text "-vision") source raw
      → not_found_event dt pl cv task
          (numbered_id c n ++ text "-vision")
          n
          c
          raw
          time
          source
          context
        ≡ ok e
      → IsOutcome task n c source [] e
  unfolding not_found_event
  not_found_event-IsOutcome task n c raw time source context e b h =
      let (x, _, h1) =
        bind-ok
          (event_error (member_value FailureCode.object_not_found)
            (text "no ArUco marker detected in " ++ context))
          _ h in
      let ((i, t, k, s), (ty, _, m), (_, refs, error)) =
        event_envelope-ok dt _ _ _ n _ time source _ _ _ _ _ e h1 in
      record {
        of_task = t;
        numbered = s;
        named = i;
        correlated = k;
        seen = m;
        evidence = rw (refs, i) (b, tt);
        counted = ap length refs;
        reports = (ty, (x, error));
      }

  found_event-IsOutcome :
      (task : Task) (n : ℕ) (c : Text) (raw annotated : EvidenceRef) (time : Datetime)
      (source : Text) (d : Detection) (ds : List Detection) (e : EventEnvelope Datetime F)
      → BelongsTo pl task.task_id (numbered_id c n ++ text "-vision") source raw
      → BelongsTo pl task.task_id (numbered_id c n ++ text "-vision") source annotated
      → found_event dt pl cv task
          (numbered_id c n ++ text "-vision")
          n
          c
          raw
          annotated
          time
          source
          d
        ≡ ok e
      → IsOutcome task n c source (d ∷ ds) e
  unfolding found_event
  found_event-IsOutcome task n c raw annotated time source d ds e b b' h =
      let ((i, t, k, s), (ty, _, m), (p, refs, error)) =
        event_envelope-ok dt _ _ _ n _ time source _ _ _ _ _ e h in
      record {
        of_task = t;
        numbered = s;
        named = i;
        correlated = k;
        seen = m;
        evidence = rw (refs, i) (b, (b', tt));
        counted = ap length refs;
        reports = (ty, error, p);
      }

  report-IsOutcome :
      (task : Task) (n : ℕ) (c : Text) (base : FilePath) (time : Datetime) (source context : Text)
      (image : Image) (raw : EvidenceRef) (world world' : World) (ds : List Detection)
      (e : EventEnvelope Datetime F)
      → BelongsTo pl task.task_id (numbered_id c n ++ text "-vision") source raw
      → report dt pl cv task
          (numbered_id c n ++ text "-vision")
          n
          c
          base
          time
          source
          context
          image
          raw
          world
          ds
        ≡ ok (world', e)
      → IsOutcome task n c source ds e
  unfolding report
  report-IsOutcome task n c base time source context image raw world world' [] e b h =
      let (x, made, h1) =
        bind-ok
          (not_found_event dt pl cv task (numbered_id c n ++ text "-vision") n c raw time source
            context)
          _ h in
      let same : (world, x) ≡ (world', e) = ok-injective h1 in
      rw (sym (ap (λ p. p.1) same))
        (not_found_event-IsOutcome task n c raw time source context x b made)
  report-IsOutcome task n c base time source context image raw world world' (d ∷ ds) e b h =
      let ((w, annotated), kept, h1) =
        bind-ok
          (stored dt pl cv task.task_id (numbered_id c n ++ text "-vision") (text "annotated") base
            source (draw_marker image d.marker_id d.corners) world)
          _ h in
      let (x, made, h2) =
        bind-ok
          (found_event dt pl cv task (numbered_id c n ++ text "-vision") n c raw annotated time
            source d)
          _ h1 in
      let same : (w, x) ≡ (world', e) = ok-injective h2 in
      rw (sym (ap (λ p. p.1) same)) (
        found_event-IsOutcome task n c raw annotated time source d ds x b
          (stored-BelongsTo task.task_id _ (text "annotated") base source _ world w annotated kept)
          made)

  validate_task_mode-ok : (m : ExecutionMode) → validate_task_mode m ≡ ok tt → m ≡ real_vision
  unfolding validate_task_mode
  validate_task_mode-ok m h = ground arith

  read_image-ok :
      (world : World) (file : FilePath) (image : Image)
      → read_image dt pl cv world file ≡ ok image
      → imread world file ≡ some image
  unfolding read_image
  read_image-ok world file image h = ground arith

  -- A detection that returns had a task of the mode real_vision and a readable image, and its event
  -- is that of the task, the sequence and the correlation it was given; it says object.found with
  -- the first of the detections in the image and two evidence references, or object.not_found where
  -- there is none and one reference; each lies in the directory of the task and names the event.
  pub run_fixture_detection-IsOutcome :
      (task : Task) (file : FilePath) (n : ℕ) (c : Text) (base : FilePath)
      (occurred_at : Option Datetime) (now : Datetime) (source context : Text)
      (world world' : World) (e : EventEnvelope Datetime F)
      → run_fixture_detection dt pl cv task file n c base occurred_at now source context world
        ≡ ok (world', e)
      → (task.mode ≡ real_vision)
        × ((image : Image) × (ds : List Detection) × (imread world file ≡ some image)
            × (detected dt pl cv image ≡ ok ds)
            × IsOutcome task n c source ds e)
  unfolding run_fixture_detection
  run_fixture_detection-IsOutcome task file n c base occurred_at now source context world world' e
        h =
      let mode = validate_task_mode-ok task.mode (check-ok (validate_task_mode task.mode) _ h) in
      let h1 = then-ok (validate_task_mode task.mode) _ h in
      let h2 = then-ok (require_cv2_with_aruco dt pl cv) _ h1 in
      let (image, opened, h3) = bind-ok (read_image dt pl cv world file) _ h2 in
      let ((w, raw), kept, h4) =
        bind-ok
          (stored dt pl cv task.task_id (numbered_id c n ++ text "-vision") (text "raw") base source
            image world)
          _ h3 in
      let (ds, found, h5) = bind-ok (detected dt pl cv image) _ h4 in
      (
        mode,
        (
          image,
          ds,
          read_image-ok world file image opened,
          found,
          report-IsOutcome task n c base (or_time occurred_at now) source context image raw w world'
              ds e (stored-BelongsTo task.task_id _ (text "raw") base source image world w raw kept)
              h5,
        ),
      )
