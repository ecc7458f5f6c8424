-- ===== src/Probe/Selection.antt =====
-- scripts/probe_cameras.py: which profiles `select_profiles` chooses.
use valera_control_tower.Base.{◌≡◌, Bool, true, ◌&&◌, not, some, List, [], ◌∷◌, Text, member}
use valera_control_tower.Probe.{CameraProfile, default_profiles, profile_in}

abbrev pub names : List CameraProfile → List Text
names [] = []
names (p ∷ ps) = p.name ∷ names ps

abbrev pub distinct : List Text → Bool
distinct [] = true
distinct (t ∷ ts) = not (member t ts) && distinct ts

-- The profile is the one that the table has under its name.
abbrev pub IsKnown : CameraProfile → Type 0
IsKnown p = profile_in p.name default_profiles ≡ some p
