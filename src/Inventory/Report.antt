-- ===== src/Inventory/Report.antt =====
-- scripts/collect_hardware_inventory.py: `collect_inventory`, with the commands that it starts.
use valera_control_tower.Base.{List, [], ◌∷◌, ◌++◌, Text, text, pos}
use valera_control_tower.Wire.{integer, string, array, object, Fields, end, field}
use valera_control_tower.Inventory.{
  Machine, text_items, object_items, safe_call, current_groups, glob_devices,
}
use valera_control_tower.Inventory.Collect.{
  available_commands, run_optional_command, cv2_status, candidate_notes, safety_flags,
}

module _ (F : Type 0) (m : Machine) where
  -- What the report is made of, in the order in which it is read; `errors` is the list that the
  -- calls extend.
  pub record Readings : Type 0 where
    pub hostname : Text
    pub user : Text
    pub groups : List (Fields F)
    pub video : List (Fields F)
    pub tty : List (Fields F)
    pub by_id : List (Fields F)
    pub by_path : List (Fields F)
    pub errors : List Text

  unfoldable pub readings : Text → Readings
  unfolding safe_call current_groups glob_devices
  readings dev_root =
      let (hostname, errors1) = safe_call F m m.hostname (text "hostname") [] in
      let (user, errors2) = safe_call F m m.user (text "current_user") errors1 in
      let (groups, errors3) = current_groups F m errors2 in
      let (video, errors4) = glob_devices F m dev_root (text "video*") errors3 in
      let (tty, errors5) = glob_devices F m dev_root (text "tty*") errors4 in
      let serial = m.join dev_root (text "serial") in
      let (by_id, errors6) = glob_devices F m (m.join serial (text "by-id")) (text "*") errors5 in
      let (by_path, errors7) =
        glob_devices F m (m.join serial (text "by-path")) (text "*") errors6 in
      record {
        hostname = hostname;
        user = user;
        groups = groups;
        video = video;
        tty = tty;
        by_id = by_id;
        by_path = by_path;
        errors = errors7;
      }

  abbrev platform_entries : Fields F
  platform_entries = field (text "system") (string m.system) (
      field (text "release") (string m.release) (
        field (text "version") (string m.version) (
          field (text "machine") (string m.machine)
            (field (text "platform") (string m.platform) end))))

  abbrev device_entries : Readings → Fields F
  device_entries r = field (text "video") (array (object_items r.video)) (
      field (text "tty") (array (object_items r.tty)) (
        field (text "serial_by_id") (array (object_items r.by_id))
          (field (text "serial_by_path") (array (object_items r.by_path)) end)))

  abbrev python_entries : Fields F
  python_entries =
      field (text "executable") (string m.executable)
        (field (text "version") (string m.python_version) end)

  abbrev output_entries : Text → Fields F
  output_entries output_dir =
      field (text "json") (string (m.join output_dir (text "latest.json")))
        (field (text "markdown") (string (m.join output_dir (text "latest.md"))) end)

  -- The report without its first entries, which name the machine.
  abbrev report_tail : Text → Readings → Fields F → Fields F → Fields F → Fields F
  report_tail output_dir r usb pci v4l2 = field (text "cv2") (object (cv2_status F m)) (
      field (text "usb_devices") (object usb) (
        field (text "pci_devices") (object pci) (
          field (text "v4l2_devices") (object v4l2) (
            field (text "output_paths") (object (output_entries output_dir)) (
              field (text "safety") (object (safety_flags F m)) (
                field (text "errors") (array (text_items r.errors)) (
                  field (text "candidates")
                    (object (candidate_notes F m usb v4l2 r.video r.by_id r.by_path)) end)))))))

  abbrev report_of : Text → Readings → Fields F → Fields F → Fields F → Fields F
  report_of output_dir r usb pci v4l2 = field (text "schema_version") (integer (pos 1)) (
      field (text "timestamp") (string m.timestamp) (
        field (text "hostname") (string r.hostname) (
          field (text "current_user") (string r.user) (
            field (text "groups") (array (object_items r.groups)) (
              field (text "platform") (object platform_entries) (
                field (text "kernel") (string m.release) (
                  field (text "devices") (object (device_entries r)) (
                    field (text "commands") (object (available_commands F m)) (
                      field (text "python") (object python_entries)
                        (report_tail output_dir r usb pci v4l2))))))))))

  -- `collect_inventory`: the report, and the commands that have been started.
  unfoldable pub collect_inventory : Text → Text → Fields F × List (List Text)
  unfolding readings available_commands run_optional_command cv2_status candidate_notes
  collect_inventory dev_root output_dir =
      let commands = available_commands F m in
      let (usb, started1) = run_optional_command F m (text "lsusb") [] commands in
      let (pci, started2) = run_optional_command F m (text "lspci") [] commands in
      let (v4l2, started3) =
        run_optional_command F m (text "v4l2-ctl") (text "--list-devices" ∷ []) commands in
      (report_of output_dir (readings dev_root) usb pci v4l2, started1 ++ started2 ++ started3)
