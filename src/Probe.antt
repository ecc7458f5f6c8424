-- ===== src/Probe.antt =====
-- scripts/probe_cameras.py: the cameras that are known, and the choice of those to probe.
pub mod Capture
pub mod Released
pub mod Selection
use valera_control_tower.Base.{
  ℕ, suc, Bool, true, false, ◌&&◌, not, Option, none, some, List, [], ◌∷◌, ◌++◌, Text, text,
  text_eq, is_empty, is_space_code, member, ◌==◌, ℤ, pos, Result, ok, raised, Exception, ◌>>=◌,
  runtime_error, value_error, if◌then◌else◌,
}
use mathlib.Core.List.{reverse}
use valera_control_tower.Wire.{Json, null, boolean, integer, string, Fields, end, field}
use valera_control_tower.Missions.{set_field}

pub record CameraProfile : Type 0 where
  pub name : Text
  pub path : Text
  pub width : ℕ
  pub height : ℕ
  pub fps : ℕ
  pub fourcc : Text

-- `DEFAULT_PROFILES`
abbrev pub default_profiles : List CameraProfile
default_profiles =
    record {
      name = text "innomaker";
      path = text "/dev/v4l/by-id/usb-Innomaker_Innomaker-U20CAM-1080p-S1_SN0001-video-index0";
      width = 1920;
      height = 1080;
      fps = 30;
      fourcc = text "MJPG";
    }
    ∷ record {
      name = text "astra_pro";
      path = text "/dev/v4l/by-id/usb-Astra_Pro_HD_Camera_Astra_Pro_HD_Camera-video-index0";
      width = 1280;
      height = 720;
      fps = 30;
      fourcc = text "MJPG";
    }
    ∷ []

-- `DEFAULT_PROFILES.get(name)`
unfoldable pub profile_in : Text → List CameraProfile → Option CameraProfile
profile_in name [] = none
profile_in name (p ∷ ps) =
    let rest = profile_in name ps in if text_eq name p.name then some p else rest

-- `arg.split(",")`, the current part collected in front.
unfoldable pub split_commas : Text → Text → List Text
split_commas current [] = current ∷ []
split_commas current (c ∷ s) =
    let here = split_commas [] s in
    let more = split_commas (current ++ c ∷ []) s in if c == b',' then current ∷ here else more

-- `s.strip()`
abbrev strip_left : Text → Text
strip_left [] = []
strip_left (c ∷ s) = let rest = strip_left s in if is_space_code c then rest else c ∷ s

unfoldable pub strip : Text → Text
strip s = reverse (strip_left (reverse (strip_left s)))

-- The stripped parts that are not empty.
abbrev pub nonempty_parts : List Text → List Text
nonempty_parts [] = []
nonempty_parts (part ∷ parts) =
    let rest = nonempty_parts parts in if is_empty (strip part) then rest else strip part ∷ rest

unfoldable pub requested_names : List Text → List Text
unfolding split_commas strip
requested_names [] = []
requested_names (arg ∷ args) = nonempty_parts (split_commas [] arg) ++ requested_names args

-- The profile of a name, or the ValueError for a name that is not in the table.
unfoldable pub known_profile : Text → Result CameraProfile
unfolding profile_in
known_profile name = elim (profile_in name default_profiles) [
  | none ↦ raised value_error
  | some profile ↦ ok profile
]

unfoldable pub profiles_of : List Text → Result (List CameraProfile)
unfolding known_profile
profiles_of [] = ok []
profiles_of (name ∷ names) = do
  profile ← known_profile name
  profiles ← profiles_of names
  ok (profile ∷ profiles)

-- The first profile of each name, those in `seen` left out.
unfoldable pub dedupe : List Text → List CameraProfile → List CameraProfile
unfolding member
dedupe seen [] = []
dedupe seen (p ∷ ps) =
    let skipped = dedupe seen ps in
    let kept = dedupe (p.name ∷ seen) ps in if member p.name seen then skipped else p ∷ kept

-- `select_profiles`, where no argument is the empty list.
unfoldable pub select_profiles : List Text → Result (List CameraProfile)
unfolding profiles_of requested_names dedupe
select_profiles [] = ok default_profiles
select_profiles (arg ∷ args) =
    profiles_of (requested_names (arg ∷ args)) >>= λ selected. ok (dedupe [] selected)
