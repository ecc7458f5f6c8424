-- ===== src/Tasks/Models.antt =====
-- robot/models.py: zones, modes, failure codes and tasks.
use valera_control_tower.Base.{
  Bool, true, false, Option, none, some, List, [], ◌∷◌, Text, text, text_eq, is_empty, Result, ok,
  raised, ◌>>=◌, ◌>>◌, raise_if, validation_error, hardware_mode_error,
}

pub data Zone : Type 0 where
  base pickup_zone delivery_zone safe_stop : Zone

pub data ExecutionMode : Type 0 where
  simulation real_vision hardware : ExecutionMode

pub data FailureCode : Type 0 where
  object_not_found marker_confidence_low pickup_unreachable alignment_failed : FailureCode
  grasp_failed release_uncertain manual_cancelled emergency_stop : FailureCode
  hardware_mode_not_enabled invalid_task : FailureCode

unfoldable pub zone_value : Zone → Text
zone_value base = text "base"
zone_value pickup_zone = text "pickup_zone"
zone_value delivery_zone = text "delivery_zone"
zone_value safe_stop = text "safe_stop"

unfoldable pub mode_value : ExecutionMode → Text
mode_value simulation = text "simulation"
mode_value real_vision = text "real_vision"
mode_value hardware = text "hardware"

unfoldable pub failure_value : FailureCode → Text
failure_value object_not_found = text "object_not_found"
failure_value marker_confidence_low = text "marker_confidence_low"
failure_value pickup_unreachable = text "pickup_unreachable"
failure_value alignment_failed = text "alignment_failed"
failure_value grasp_failed = text "grasp_failed"
failure_value release_uncertain = text "release_uncertain"
failure_value manual_cancelled = text "manual_cancelled"
failure_value emergency_stop = text "emergency_stop"
failure_value hardware_mode_not_enabled = text "hardware_mode_not_enabled"
failure_value invalid_task = text "invalid_task"

abbrev pub all_zones : List Zone
all_zones = base ∷ pickup_zone ∷ delivery_zone ∷ safe_stop ∷ []

abbrev pub all_modes : List ExecutionMode
all_modes = simulation ∷ real_vision ∷ hardware ∷ []

abbrev pub all_failures : List FailureCode
all_failures =
    object_not_found ∷ marker_confidence_low ∷ pickup_unreachable ∷ alignment_failed ∷ grasp_failed
    ∷ release_uncertain ∷ manual_cancelled ∷ emergency_stop ∷ hardware_mode_not_enabled
    ∷ invalid_task ∷ []

-- An argument that should be a member of an enumeration of strings: a member, a string, or an
-- object of another kind.
pub data Raw (A : Type 0) : Type 0 where
  member_value : A → Raw A
  raw_text : Text → Raw A
  raw_other : Raw A

-- `enum_type(value)` of a string: the member with this value.
unfoldable pub member_of : {A : Type 0} → (A → Text) → List A → Text → Option A
member_of value [] s = none
member_of value (a ∷ as') s =
    let rest = member_of value as' s in elim (text_eq s (value a)) [ true ↦ some a | false ↦ rest ]

-- `require_enum`
unfoldable pub require_enum : {A : Type 0} → (A → Text) → List A → Raw A → Result A
unfolding member_of
require_enum value members (member_value a) = ok a
require_enum value members (raw_text s) = elim (member_of value members s) [
  | some a ↦ ok a
  | none ↦ raised validation_error
]
require_enum value members raw_other = raised validation_error

pub record Task : Type 0 where
  pub task_id : Text
  pub object_id : Text
  pub pickup_zone : Zone
  pub delivery_zone : Zone
  pub mode : ExecutionMode
  pub description : Text

abbrev pub is_hardware : ExecutionMode → Bool
is_hardware hardware = true
is_hardware _ = false

abbrev pub is_simulation : ExecutionMode → Bool
is_simulation simulation = true
is_simulation _ = false

-- The constructor of `Task` with `__post_init__`.
unfoldable pub make_task :
    Text → Text → Raw Zone → Raw Zone → Raw ExecutionMode → Text → Result Task
unfolding require_enum
make_task task_id object_id pickup delivery mode description = do
  raise_if (is_empty task_id) validation_error
  raise_if (is_empty object_id) validation_error
  p ← require_enum zone_value all_zones pickup
  d ← require_enum zone_value all_zones delivery
  m ← require_enum mode_value all_modes mode
  raise_if (is_hardware m) hardware_mode_error
  ok (record {
    task_id = task_id;
    object_id = object_id;
    pickup_zone = p;
    delivery_zone = d;
    mode = m;
    description = description;
  })
