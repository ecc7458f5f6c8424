-- ===== src/Inventory/Commands.antt =====
-- scripts/collect_hardware_inventory.py: the commands that an inventory starts.
use valera_control_tower.Base.{
  ◌≡◌, refl, arith, Bool, true, false, inl, inr, Option, none, some, List, [], ◌∷◌, Text, text,
  text_eq, Bool-cases, if◌then◌else◌, member, ◌||◌, sym, ap, ◌∙◌, text_eq_iff,
}
use valera_control_tower.OutputCheck.{get}
use valera_control_tower.Wire.{object}
use valera_control_tower.Inventory.{Machine, safe_commands}
use valera_control_tower.Inventory.Collect.{
  available_of, command_entry, available_in, available_commands, is_available, run_optional_command,
}
use valera_control_tower.Inventory.Report.{collect_inventory}

-- The three commands that list devices.
abbrev pub listing_commands : List (List Text)
listing_commands =
    (text "lsusb" ∷ []) ∷ (text "lspci" ∷ []) ∷ (text "v4l2-ctl" ∷ text "--list-devices" ∷ []) ∷ []

abbrev pub is_found : Option Text → Bool
is_found none = false
is_found (some path) = true

-- Those of some commands whose program the machine has, in their order.
abbrev pub installed : Machine → List (List Text) → List (List Text)
installed m [] = []
installed m ([] ∷ commands) = installed m commands
installed m ((name ∷ args) ∷ commands) =
    let rest = installed m commands in
    if is_found (m.resolve_command name) then (name ∷ args) ∷ rest else rest

module _ (F : Type 0) (m : Machine) where
  command_entry-available :
      (path : Option Text)
      → available_of F m (some (object (command_entry F m path))) ≡ is_found path
  unfolding get text_eq
  command_entry-available none = refl
  command_entry-available (some path) = refl

  -- A command of the table is available if the machine resolves its name.
  available_in-is_found :
      (name : Text) (names : List Text)
      → member name names ≡ true
      → is_available F m name (available_in F m names) ≡ is_found (m.resolve_command name)
  unfolding is_available available_in get member
  available_in-is_found name [] h = cc
  available_in-is_found name (n ∷ names) h = elim (Bool-cases (text_eq name n)) [
    | inl b ↦ rw b (
        command_entry-available (m.resolve_command n)
        ∙ ap (λ t. is_found (m.resolve_command t)) (sym ((text_eq_iff name n).0 b)))
    | inr b ↦ rw b (available_in-is_found name names (sym (ap (λ t. t || member name names) b) ∙ h))
  ]

  run_optional_command-installed :
      (name : Text) (args : List Text)
      → member name safe_commands ≡ true
      → (run_optional_command F m name args (available_commands F m)).1
        ≡ installed m ((name ∷ args) ∷ [])
  unfolding run_optional_command available_commands
  run_optional_command-installed name args h =
      let available = available_in-is_found name safe_commands h in
      elim (Bool-cases (is_found (m.resolve_command name))) [
        | inl b ↦ rw (available ∙ b, run_optional_command) (rw b refl)
        | inr b ↦ rw (available ∙ b, run_optional_command) (rw b refl)
      ]

-- An inventory starts exactly those of the three commands that list devices, in their order, whose
-- program the machine has, and each of them once, whatever a command returns or raises.
pub collect_inventory-installed :
    (F : Type 0) (m : Machine) (dev_root output_dir : Text)
    → (collect_inventory F m dev_root output_dir).1 ≡ installed m listing_commands
unfolding collect_inventory member text_eq
collect_inventory-installed F m dev_root output_dir =
    rw
      (
        run_optional_command-installed F m (text "lsusb") [] refl,
        run_optional_command-installed F m (text "lspci") [] refl,
        run_optional_command-installed F m (text "v4l2-ctl") (text "--list-devices" ∷ []) refl,
      )
      (ground arith)
