-- ===== src/Probe/Released.antt =====
-- scripts/probe_cameras.py: the captures that a probe opens and releases.
use valera_control_tower.Base.{
  ℕ, suc, ◌≡◌, refl, ◌∙◌, Bool, true, false, not, List, [], ◌∷◌, inl, inr, Text, Result, ok, raised,
  Exception, Result-cases, Option-cases, if◌then◌else◌,
}
use valera_control_tower.Wire.{Fields}
use valera_control_tower.Probe.{CameraProfile, select_profiles}
use valera_control_tower.Probe.Capture.{
  CameraDriver, Progress, on, read_modes, write_frame, take_frame, use_capture, try_capture,
  probe_camera, probe_all, main, frame_of,
}

-- What the calls of OpenCV do to the number of captures that are held: a capture that is made adds
-- one, its release takes one away, and every other call, or one that raises, keeps the number.
pub record IsCounted (driver : CameraDriver) (held : driver.World → ℕ) : Type 0 where
  pub made :
      (path : Text) (w : driver.World)
      → (driver.video_capture path w).1 ≡ ok tt
      → held (driver.video_capture path w).0 ≡ suc (held w)
  pub not_made :
      (path : Text) (w : driver.World) (e : Exception)
      → (driver.video_capture path w).1 ≡ raised e
      → held (driver.video_capture path w).0 ≡ held w
  pub asked : (w : driver.World) → held (driver.is_opened w).0 ≡ held w
  pub mode_set : (p : CameraProfile) (w : driver.World) → held (driver.set_mode p w).0 ≡ held w
  pub was_read : (w : driver.World) → held (driver.read w).0 ≡ held w
  pub directory_made : (path : Text) (w : driver.World) → held (driver.mkdir path w).0 ≡ held w
  pub written :
      (path : Text) (frame : driver.Frame) (w : driver.World)
      → held (driver.imwrite path frame w).0 ≡ held w
  pub got : (name : Text) (w : driver.World) → held (driver.capture_get name w).0 ≡ held w
  pub released : (n : ℕ) (w : driver.World) → held w ≡ suc n → held (driver.release w) ≡ n

module _ (F : Type 0) (driver : CameraDriver) (held : driver.World → ℕ)
    (counted : IsCounted driver held) where
  open driver use {World, Frame}

  -- A call that keeps the number, in front of steps that keep it.
  on-held :
      {A : Type 0} (n : ℕ) (result : Fields F) (call : World × Result A)
      (next : A → World → Progress F driver)
      → held call.0 ≡ n
      → ((a : A) (w : World) → held w ≡ n → held (next a w).0 ≡ n)
      → held (on F driver result call next).0 ≡ n
  unfolding on
  on-held n result (w, raised e) next h keep = h
  on-held n result (w, ok a) next h keep = keep a w h

  if-held :
      {S : Type 0} (of : S → ℕ) (n : ℕ) (b : Bool) (x y : S)
      → of x ≡ n
      → of y ≡ n
      → of (if b then x else y) ≡ n
  if-held of n true x y h k = h
  if-held of n false x y h k = k

  read_modes-held :
      (n : ℕ) (result : Fields F) (w : World)
      → held w ≡ n
      → held (read_modes F driver result w).0 ≡ n
  unfolding read_modes
  read_modes-held n result w h = on-held n _ _ _ (counted.got _ w ∙ h) λ a w h.
      on-held n _ _ _ (counted.got _ w ∙ h)
        λ a w h. on-held n _ _ _ (counted.got _ w ∙ h) λ a w h. h

  write_frame-held :
      (n : ℕ) (output : Text) (frame : Frame) (result : Fields F) (w : World)
      → held w ≡ n
      → held (write_frame F driver output frame result w).0 ≡ n
  unfolding write_frame
  write_frame-held n output frame result w h =
      on-held n _ _ _ (counted.directory_made _ w ∙ h) λ done w h.
        on-held n _ _ _ (counted.written _ frame w ∙ h) λ done w h.
          if-held {S = Progress F driver} (λ r. held r.0) n (not done) _ _ h
            (read_modes-held n _ w h)

  take_frame-held :
      (n : ℕ) (p : CameraProfile) (output : Text) (result : Fields F) (w : World)
      → held w ≡ n
      → held (take_frame F driver p output result w).0 ≡ n
  unfolding take_frame
  take_frame-held n p output result w h = on-held n _ _ _ (counted.mode_set p w ∙ h) λ done w h.
      on-held n _ _ _ (counted.was_read w ∙ h) λ answer w h.
        elim (Option-cases (frame_of F driver answer)) [
          | inl b ↦ rw b h
          | inr (frame, b) ↦ rw b (write_frame-held n output frame result w h)
        ]

  use_capture-held :
      (n : ℕ) (p : CameraProfile) (resolved output : Text) (result : Fields F) (w : World)
      → held w ≡ n
      → held (use_capture F driver p resolved output result w).0 ≡ n
  unfolding use_capture
  use_capture-held n p resolved output result w h =
      on-held n _ _ _ (counted.asked w ∙ h) λ opened w h.
        if-held {S = Progress F driver} (λ r. held r.0) n (not opened) _ _ h
          (take_frame-held n p output result w h)

  try_capture-held :
      (p : CameraProfile) (resolved output : Text) (result : Fields F) (w : World)
      → held (try_capture F driver p resolved output result w).0 ≡ held w
  unfolding try_capture
  try_capture-held p resolved output result w =
      elim (Result-cases (driver.video_capture resolved w).1) [
        | inr (e, raises) ↦ rw (raises, try_capture) (counted.not_made resolved w e raises)
        | inl (done, made) ↦
            rw (made, try_capture)
              (counted.released (held w) _
                (use_capture-held _ p resolved output result _ (counted.made resolved w made)))
      ]

  probe_camera-held :
      (p : CameraProfile) (output : Text) (w : World)
      → held (probe_camera F driver p output w).0 ≡ held w
  unfolding probe_camera
  probe_camera-held p output w =
      if-held {S = World × Result (Fields F)} (λ r. held r.0) (held w) (not driver.has_cv2) _ _ refl
        (if-held {S = World × Result (Fields F)} (λ r. held r.0) (held w)
          (not (driver.exists p.path w)) _ _ refl
          (try_capture-held p (driver.resolve p.path w) output _ w))

  probe_all-held :
      (output : Text → Text) (ps : List CameraProfile) (w : World)
      → held (probe_all F driver output ps w).0 ≡ held w
  unfolding probe_all
  probe_all-held output [] w = refl
  probe_all-held output (p ∷ ps) w =
      let first = probe_camera-held p (output p.name) w in
      elim (Result-cases (probe_camera F driver p (output p.name) w).1) [
        | inr (e, raises) ↦ rw (raises, probe_all) first
        | inl (entries, probed) ↦ rw (probed, probe_all) (probe_all-held output ps _ ∙ first)
      ]

-- If a capture that OpenCV makes counts as one that is held until it is released, and no other call
-- changes the number, then a run of the probe leaves as many captures held as it found, whatever the
-- calls return or raise and whatever cameras are asked for.
pub main-held :
    (F : Type 0) (driver : CameraDriver) (held : driver.World → ℕ) (output : Text → Text)
    (cameras : List Text) (w : driver.World)
    → IsCounted driver held
    → held (main F driver output cameras w).0 ≡ held w
unfolding main
main-held F driver held output cameras w counted = elim (Result-cases (select_profiles cameras)) [
  | inr (e, raises) ↦ rw (raises, main) refl
  | inl (profiles, chosen) ↦
      rw (chosen, main) (probe_all-held F driver held counted output profiles w)
]
