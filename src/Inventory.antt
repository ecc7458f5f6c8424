-- ===== src/Inventory.antt =====
-- scripts/collect_hardware_inventory.py: the inventory of a machine, read without opening a device.
-- The operating system is the record `Machine`.
pub mod Collect
pub mod Report
pub mod Commands
use valera_control_tower.Base.{
  ℕ, Bool, true, false, not, ◌||◌, ◌&&◌, Option, none, some, List, [], ◌∷◌, ◌++◌, Text, text,
  text_eq, is_empty, ℤ, pos, Result, ok, raised, Exception, key_error, ◌>>=◌, if◌then◌else◌, ◌==◌,
}
use valera_control_tower.Wire.{
  Json, null, boolean, integer, string, array, object, Items, nil, cons, Fields, end, field,
}
use valera_control_tower.Missions.{set_field}
use valera_control_tower.OutputCheck.{get}

pub record CommandResult : Type 0 where
  pub returncode : ℤ
  pub stdout : Text
  pub stderr : Text

-- What the script asks of the machine. `glob_paths` is the sorted `glob.glob` of a pattern,
-- `group_ids` is `sorted(set(os.getgroups()))`, `lstat` gives the octal mode, the owner and the
-- group, and `cv2` the version and whether `aruco` is there, if the import succeeds.
pub record Machine : Type 0 where
  pub resolve_command : Text → Option Text
  pub run_command : List Text → Result CommandResult
  pub exception_text : Exception → Text
  pub timestamp : Text
  pub hostname : Result Text
  pub user : Result Text
  pub group_ids : Result (List ℕ)
  pub group_name : ℕ → Result Text
  pub system : Text
  pub release : Text
  pub version : Text
  pub machine : Text
  pub platform : Text
  pub executable : Text
  pub python_version : Text
  pub cv2 : Result (Text × Bool)
  pub join : Text → Text → Text
  pub glob_paths : Text → Result (List Text)
  pub path_name : Text → Text
  pub path_exists : Text → Bool
  pub is_symlink : Text → Bool
  pub readlink : Text → Result Text
  pub lstat : Text → Result (Text × ℕ × ℕ)
  pub lower : Text → Text

-- `SAFE_COMMANDS`
abbrev pub safe_commands : List Text
safe_commands = text "lsusb" ∷ text "v4l2-ctl" ∷ text "udevadm" ∷ text "python3" ∷ text "lspci" ∷ []

abbrev is_key_error : Exception → Bool
is_key_error key_error = true
is_key_error e = false

abbrev starts_here : Text → Text → Bool
starts_here [] s = true
starts_here (c ∷ t) [] = false
starts_here (c ∷ t) (d ∷ s) = c == d && starts_here t s

-- `t in s`
unfoldable pub contains : Text → Text → Bool
contains t [] = is_empty t
contains t (c ∷ s) = starts_here t (c ∷ s) || contains t s

-- `any(t in s for t in ts)`
unfoldable pub contains_any : List Text → Text → Bool
unfolding contains
contains_any [] s = false
contains_any (t ∷ ts) s = contains t s || contains_any ts s

module _ {F : Type 0} where
  abbrev pub text_items : List Text → Items F
  text_items [] = nil
  text_items (t ∷ ts) = cons (string t) (text_items ts)

  abbrev pub object_items : List (Fields F) → Items F
  object_items [] = nil
  object_items (o ∷ os) = cons (object o) (object_items os)

  -- `d.get("stdout", "")` of the entries of a command.
  abbrev pub text_of : Option (Json F) → Text
  text_of (some (string s)) = s
  text_of x = []

  -- The truth of `d.get("available")` for the entries of a command.
  abbrev pub flag_of : Option (Json F) → Bool
  flag_of (some (boolean b)) = b
  flag_of x = false

module _ (F : Type 0) (m : Machine) where
  -- A value with the errors so far.
  abbrev pub Noted : Type 0 → Type 0
  Noted A = A × List Text

  -- `_safe_call`
  unfoldable pub safe_call : Result Text → Text → List Text → Noted Text
  safe_call (ok value) label errors = (value, errors)
  safe_call (raised e) label errors =
      (text "unknown", errors ++ (label ++ text ": " ++ m.exception_text e) ∷ [])

  -- `grp.getgrgid(gid).gr_name`, "unknown" for a KeyError.
  unfoldable pub known_group : ℕ → Result Text
  known_group gid = elim (m.group_name gid) [
    | ok name ↦ ok name
    | raised e ↦ if is_key_error e then ok (text "unknown") else raised e
  ]

  unfoldable pub group_entries : List ℕ → Result (List (Fields F))
  unfolding known_group
  group_entries [] = ok []
  group_entries (gid ∷ gids) = do
    name ← known_group gid
    rest ← group_entries gids
    ok (field (text "gid") (integer (pos gid)) (field (text "name") (string name) end) ∷ rest)

  -- `_current_groups`
  unfoldable pub current_groups : List Text → Noted (List (Fields F))
  unfolding group_entries
  current_groups errors = elim (m.group_ids >>= group_entries) [
    | ok groups ↦ (groups, errors)
    | raised e ↦ ([], errors ++ (text "groups: " ++ m.exception_text e) ∷ [])
  ]

  -- The entries of a path, and the exception that ended `try`, if there was one.
  abbrev pub Described : Type 0
  Described = Fields F × Result (Unit {0})

  unfoldable pub with_link : Text → Fields F → Described
  unfolding set_field
  with_link path info = if not (m.is_symlink path) then (info, ok tt) else elim (m.readlink path) [
    | ok target ↦ (set_field (text "target") (string target) info, ok tt)
    | raised e ↦ (info, raised e)
  ]

  unfoldable pub with_group : ℕ → Fields F → Described
  unfolding set_field known_group
  with_group gid info = elim (known_group gid) [
    | ok name ↦ (set_field (text "group") (string name) info, ok tt)
    | raised e ↦ (info, raised e)
  ]

  unfoldable pub with_stat : Text → Fields F → Described
  unfolding set_field with_group
  with_stat path info = elim (m.lstat path) [
    | raised e ↦ (info, raised e)
    | ok status ↦
        let (mode, uid, gid) = status in
        with_group gid (
          set_field (text "gid") (integer (pos gid)) (
            set_field (text "uid") (integer (pos uid))
              (set_field (text "mode") (string mode) info)))
  ]

  abbrev after : Described → (Fields F → Described) → Described
  after (info, raised e) next = (info, raised e)
  after (info, ok done) next = next info

  abbrev with_error : Text → List Text → Described → Noted (Fields F)
  with_error path errors (info, ok done) = (info, errors)
  with_error path errors (info, raised e) =
      (info, errors ++ (text "stat " ++ path ++ text ": " ++ m.exception_text e) ∷ [])

  -- `_describe_path`
  unfoldable pub describe_path : Text → List Text → Noted (Fields F)
  unfolding with_link with_stat
  describe_path path errors =
      let info = field (text "path") (string path) (
        field (text "name") (string (m.path_name path)) (
          field (text "exists") (boolean (m.path_exists path)) (
            field (text "is_symlink") (boolean (m.is_symlink path)) (
              field (text "target") null (
                field (text "mode") null (
                  field (text "uid") null
                    (field (text "gid") null (field (text "group") null end)))))))) in
      with_error path errors (after (with_link path info) (with_stat path))

  unfoldable pub describe_paths : List Text → List Text → Noted (List (Fields F))
  unfolding describe_path
  describe_paths [] errors = ([], errors)
  describe_paths (path ∷ paths) errors =
      let (device, errors') = describe_path path errors in
      let (devices, errors'') = describe_paths paths errors' in (device ∷ devices, errors'')

  -- `_glob_devices`
  unfoldable pub glob_devices : Text → Text → List Text → Noted (List (Fields F))
  unfolding describe_paths
  glob_devices root pattern errors = elim (m.glob_paths (m.join root pattern)) [
    | ok paths ↦ describe_paths paths errors
    | raised e ↦ (
      [],
      errors ++ (text "glob " ++ m.join root pattern ++ text ": " ++ m.exception_text e) ∷ [],
    )
  ]
