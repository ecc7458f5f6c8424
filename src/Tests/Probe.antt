-- ===== src/Tests/Probe.antt =====
-- scripts/probe_cameras.py at concrete inputs. A world is the number of captures that are held.
use valera_control_tower.Base.{
  ℕ, ◌-◌, suc, ◌≡◌, refl, arith, true, Option, none, some, List, [], ◌∷◌, ◌++◌, Text, text, text_eq,
  ℤ, pos, Result, ok, raised, runtime_error, value_error, if◌then◌else◌, is_space_code,
}
use valera_control_tower.Wire.{Json, boolean, string, Fields}
use valera_control_tower.Missions.{set_field}
use valera_control_tower.OutputCheck.{get}
use valera_control_tower.Probe.{
  CameraProfile, default_profiles, requested_names, select_profiles, profiles_of, dedupe,
  split_commas, strip,
}
use valera_control_tower.Probe.Capture.{
  CameraDriver, main, probe_all, probe_camera, try_capture, use_capture, take_frame, write_frame,
  read_modes, on, set_error, initial_result, all_ok,
}
use valera_control_tower.Probe.Released.{IsCounted, main-held}

-- OpenCV fails at the second camera, and at the frame rate of the first.
abbrev opening : Text → ℕ → ℕ × Result (Unit {0})
opening path w =
    if text_eq path (text "/dev/v4l/by-id/usb-Astra_Pro_HD_Camera_Astra_Pro_HD_Camera-video-index0")
    then (w, raised runtime_error)
    else (suc w, ok tt)

abbrev reported : Text → Result ℤ
reported mode = if text_eq mode (text "CAP_PROP_FPS") then raised value_error else ok (pos 30)

abbrev bench : CameraDriver
bench = record {
  World = ℕ;
  Frame = ℕ;
  has_cv2 = true;
  exists = λ path w. true;
  resolve = λ path w. path;
  video_capture = opening;
  is_opened = λ w. (w, ok true);
  set_mode = λ p w. (w, ok tt);
  read = λ w. (w, ok (true, some 1));
  mkdir = λ path w. (w, ok tt);
  imwrite = λ path frame w. (w, ok true);
  capture_get = λ mode w. (w, reported mode);
  release = λ w. w - 1;
  exception_text = λ e. text "failed";
}

abbrev jpg : Text → Text
jpg name = name ++ text ".jpg"

bench-IsCounted : IsCounted bench (λ w. w)
bench-IsCounted = record {
  made = λ path w h. ground arith;
  not_made = λ path w e h. ground arith;
  asked = λ w. refl;
  mode_set = λ p w. refl;
  was_read = λ w. refl;
  directory_made = λ path w. refl;
  written = λ path frame w. refl;
  got = λ name w. refl;
  released = λ n w h. ground arith;
}

main-held_example : (main ℕ bench jpg [] 5).0 ≡ 5
main-held_example = main-held ℕ bench (λ w. w) jpg [] 5 bench-IsCounted

abbrev twice : List Text
twice = text "astra_pro, innomaker" ∷ text ",astra_pro" ∷ []

abbrev chosen : List CameraProfile
chosen = profiles_reversed default_profiles
  where
    profiles_reversed : List CameraProfile → List CameraProfile
    profiles_reversed [] = []
    profiles_reversed (p ∷ ps) = profiles_reversed ps ++ p ∷ []

-- An argument without a name chooses no camera, and the run ends with the exit code 0.
no_camera : main ℕ bench jpg (text "," ∷ []) 0 ≡ (0, ok 0)
unfolding main probe_all all_ok select_profiles requested_names profiles_of dedupe split_commas
    strip is_space_code
no_camera = refl

-- The frame of the first camera is written, and the entries say so beside the error that follows.
abbrev innomaker : CameraProfile
innomaker = record {
  name = text "innomaker";
  path = text "/dev/v4l/by-id/usb-Innomaker_Innomaker-U20CAM-1080p-S1_SN0001-video-index0";
  width = 1920;
  height = 1080;
  fps = 30;
  fourcc = text "MJPG";
}

abbrev entry : Text → Result (Fields ℕ) → Option (Json ℕ)
entry key (raised e) = none
entry key (ok entries) = get key entries

written_with_error :
    (entry (text "ok") (probe_camera ℕ bench innomaker (text "o.jpg") 0).1 ≡ some (boolean true))
    × (entry (text "error") (probe_camera ℕ bench innomaker (text "o.jpg") 0).1
        ≡ some (
            string (
              text
                "cv2 error for /dev/v4l/by-id/usb-Innomaker_Innomaker-U20CAM-1080p-S1_SN0001-video-index0: failed")))
unfolding probe_camera try_capture use_capture take_frame write_frame read_modes on set_error
    initial_result set_field get text_eq
written_with_error = (refl, refl)
