-- ===== src/Inventory/Collect.antt =====
-- scripts/collect_hardware_inventory.py: the commands that are run, the notes on candidates, and
-- `collect_inventory`. A run of commands also gives the commands that it has started.
use valera_control_tower.Base.{
  Bool, true, false, not, ◌||◌, Option, none, some, List, [], ◌∷◌, ◌++◌, Text, text, Result, ok,
  raised, if◌then◌else◌, join_texts,
}
use valera_control_tower.Wire.{
  Json, null, boolean, integer, string, array, object, Fields, end, field,
}
use valera_control_tower.OutputCheck.{get}
use valera_control_tower.Inventory.{
  CommandResult, Machine, safe_commands, contains_any, text_items, text_of, flag_of,
}

module _ (F : Type 0) (m : Machine) where
  -- `{"available": resolved is not None, "path": resolved}`
  abbrev pub command_entry : Option Text → Fields F
  command_entry none = field (text "available") (boolean false) (field (text "path") null end)
  command_entry (some path) =
      field (text "available") (boolean true) (field (text "path") (string path) end)

  -- `_available_commands`
  unfoldable pub available_in : List Text → Fields F
  available_in [] = end
  available_in (name ∷ names) =
      field name (object (command_entry (m.resolve_command name))) (available_in names)

  unfoldable pub available_commands : Fields F
  unfolding available_in
  available_commands = available_in safe_commands

  -- `commands.get(name, {}).get("available")`
  abbrev pub available_of : Option (Json F) → Bool
  available_of (some (object entry)) = flag_of (get (text "available") entry)
  available_of x = false

  unfoldable pub is_available : Text → Fields F → Bool
  unfolding get
  is_available name commands = available_of (get name commands)

  -- The entries that `_run_optional_command` returns.
  abbrev pub command_report : List Text → Bool → Json F → Text → Text → Fields F
  command_report args available returncode stdout stderr =
      field (text "command") (array (text_items args)) (
        field (text "available") (boolean available) (
          field (text "returncode") returncode
            (field (text "stdout") (string stdout) (field (text "stderr") (string stderr) end))))

  abbrev pub result_entries : List Text → Result CommandResult → Fields F
  result_entries args (ok r) = command_report args true (integer r.returncode) r.stdout r.stderr
  result_entries args (raised e) = command_report args true null [] (m.exception_text e)

  -- `_run_optional_command` of a command's name and its arguments, with what has been started.
  unfoldable pub run_optional_command : Text → List Text → Fields F → Fields F × List (List Text)
  unfolding is_available
  run_optional_command name args commands =
      if not (is_available name commands)
      then (command_report (name ∷ args) false null [] [], [])
      else (result_entries (name ∷ args) (m.run_command (name ∷ args)), (name ∷ args) ∷ [])

  -- `_cv2_status`
  unfoldable pub cv2_status : Fields F
  cv2_status = elim m.cv2 [
    | ok found ↦
        let (version, aruco) = found in
        field (text "imports") (boolean true) (
          field (text "version") (string version)
            (field (text "aruco_available") (boolean aruco) end))
    | raised e ↦ field (text "imports") (boolean false) (
        field (text "version") null (
          field (text "aruco_available") (boolean false)
            (field (text "error") (string (m.exception_text e)) end)))
  ]

  -- `_serial_name_matches`; a target that is missing is shown as None.
  abbrev pub shown_target : Option (Json F) → Text
  shown_target (some (string s)) = s
  shown_target (some x) = text "None"
  shown_target none = []

  unfoldable pub serial_name_matches : List Text → Fields F → Bool
  unfolding contains_any get
  serial_name_matches markers device = contains_any markers (
      m.lower (
        text_of (get (text "path") device)
        ++ text " "
        ++ shown_target (get (text "target") device)))

  unfoldable pub any_matches : List Text → List (Fields F) → Bool
  unfolding serial_name_matches
  any_matches markers [] = false
  any_matches markers (device ∷ devices) =
      serial_name_matches markers device || any_matches markers devices

  -- `_possible`
  abbrev pub possible : Bool → Text → Json F
  possible is_candidate note =
      object
        (field (text "candidate") (boolean is_candidate) (field (text "note") (string note) end))

  abbrev pub paths_of : List (Fields F) → List Text
  paths_of [] = []
  paths_of (device ∷ devices) = text_of (get (text "path") device) ∷ paths_of devices

  abbrev is_nonempty : List (Fields F) → Bool
  is_nonempty [] = false
  is_nonempty devices = true

  -- `_candidate_notes`
  unfoldable pub candidate_notes :
      Fields F → Fields F → List (Fields F) → List (Fields F) → List (Fields F) → Fields F
  unfolding contains_any any_matches join_texts get
  candidate_notes usb v4l2 video by_id by_path =
      let combined = m.lower (
        join_texts (text "\n") (
          text_of (get (text "stdout") usb)
          ∷ text_of (get (text "stdout") v4l2)
          ∷ join_texts (text " ") (paths_of video)
          ∷ join_texts (text " ") (paths_of by_id)
          ∷ join_texts (text " ") (paths_of by_path)
          ∷ [])) in
      let serial_paths = by_id ++ by_path in
      field (text "possible_orbbec_camera")
        (possible
          (contains_any (text "orbbec" ∷ text "astra" ∷ text "gemini" ∷ text "depth" ∷ []) combined
            || is_nonempty video)
          (text
            "Video devices or USB/video names may indicate a camera. Confirm manually before use."))
        (field (text "possible_so_arm_serial")
          (possible
            (any_matches
              (text "so-arm"
                ∷ text "so_arm"
                ∷ text "servo"
                ∷ text "dynamixel"
                ∷ text "lerobot"
                ∷ [])
              serial_paths)
            (text
              "Serial by-id/by-path names may indicate an arm controller. This is heuristic only."))
          (field (text "possible_tracked_base_serial")
            (possible
              (any_matches
                (text "base"
                  ∷ text "chassis"
                  ∷ text "motor"
                  ∷ text "roboclaw"
                  ∷ text "sabertooth"
                  ∷ [])
                serial_paths)
              (text
                "Serial by-id/by-path names may indicate a base controller. This is heuristic only."))
            end))

  -- The entry "safety" of the report.
  abbrev pub safety_flags : Fields F
  safety_flags = field (text "inventory_only") (boolean true) (
      field (text "opened_camera") (boolean false) (
        field (text "captured_frames") (boolean false) (
          field (text "opened_serial_ports") (boolean false) (
            field (text "sent_serial_commands") (boolean false) (
              field (text "enabled_torque") (boolean false) (
                field (text "moved_robot") (boolean false) (
                  field (text "controlled_arm") (boolean false)
                    (field (text "called_actuators") (boolean false) end))))))))
