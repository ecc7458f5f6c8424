-- ===== src/Tests/Inventory.antt =====
-- scripts/collect_hardware_inventory.py on a machine with one camera and no `lspci`.
use valera_control_tower.Base.{
  ℕ, ◌≡◌, refl, true, false, Option, none, some, [], ◌∷◌, ◌++◌, Text, text, text_eq, ok, raised,
  os_error, key_error, if◌then◌else◌,
}
use valera_control_tower.Missions.{set_field}
use valera_control_tower.OutputCheck.{get}
use valera_control_tower.Wire.{string}
use valera_control_tower.Inventory.{
  Machine, describe_path, with_link, with_stat, with_group, known_group,
}
use valera_control_tower.Inventory.Report.{collect_inventory}
use valera_control_tower.Inventory.Commands.{
  listing_commands, installed, collect_inventory-installed,
}

abbrev found : Text → Option Text
found name = if text_eq name (text "lspci") then none else some (text "/usr/bin/" ++ name)

-- `v4l2-ctl` fails to run, and no group has a name.
abbrev desk : Machine
desk = record {
  resolve_command = found;
  run_command = λ args. raised os_error;
  exception_text = λ e. text "failed";
  timestamp = text "now";
  hostname = ok (text "desk");
  user = raised key_error;
  group_ids = ok (4 ∷ []);
  group_name = λ gid. raised key_error;
  system = text "Linux";
  release = text "6";
  version = text "1";
  machine = text "x86_64";
  platform = text "Linux-6";
  executable = text "python3";
  python_version = text "3";
  cv2 = raised os_error;
  join = λ p q. p ++ text "/" ++ q;
  glob_paths = λ pattern. ok (text "/dev/video0" ∷ []);
  path_name = λ path. text "video0";
  path_exists = λ path. true;
  is_symlink = λ path. false;
  readlink = λ path. raised os_error;
  lstat = λ path. ok (text "0o660", 0, 44);
  lower = λ s. s;
}

collect_inventory-installed_example :
    (collect_inventory ℕ desk (text "/dev") (text "out")).1 ≡ installed desk listing_commands
collect_inventory-installed_example = collect_inventory-installed ℕ desk (text "/dev") (text "out")

two_are_installed :
    installed desk listing_commands
    ≡ (text "lsusb" ∷ []) ∷ (text "v4l2-ctl" ∷ text "--list-devices" ∷ []) ∷ []
unfolding text_eq
two_are_installed = refl

-- A group without a name is no error.
unnamed_group :
    (get (text "group") (describe_path ℕ desk (text "/dev/video0") []).0
      ≡ some (string (text "unknown")))
    × ((describe_path ℕ desk (text "/dev/video0") []).1 ≡ [])
unfolding describe_path with_link with_stat with_group known_group set_field get text_eq
unnamed_group = (refl, refl)
