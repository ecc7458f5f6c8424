-- ===== src/Missions.antt =====
-- What the missions share: the numbers in event ids, `dict | dict`, and the payload's zones.
-- robot/sim_executor.py, robot/adapter_sim_mission.py and robot/physical_demo.py each have a copy.
pub mod Open
pub mod Digits
pub mod Simulated
pub mod SimulatedRun
pub mod Physical
pub mod PhysicalProbe
pub mod PhysicalTrace
pub mod PhysicalSafety
pub mod PhysicalTotal
pub mod AdapterSim
pub mod Hybrid
pub mod HybridRun
pub mod HybridTotal
pub mod Smoke
pub mod SmokeRun
use valera_control_tower.Base.{
  ℕ, zero, suc, ◌+◌, ◌-◌, Bool, true, false, List, [], ◌∷◌, ◌++◌, Text, text, text_eq, ltb, length,
  if◌then◌else◌,
}
use Prim.Native.Nat.{◌/◌, ◌%◌}
use valera_control_tower.Wire.{Json, string, array, Items, nil, cons, Fields, end, field}
use valera_control_tower.Tasks.Models.{Task, Zone, base, zone_value}

-- The decimal digits of a number below 10 ^ fuel, in front of the others.
unfoldable pub digits : ℕ → ℕ → Text → Text
digits zero n rest = rest
digits (suc fuel) n rest =
    let more = digits fuel (n / 10) ((b'0' + n % 10) ∷ rest) in
    if ltb n 10 then (b'0' + n) ∷ rest else more

abbrev zeros : ℕ → Text → Text
zeros zero s = s
zeros (suc k) s = b'0' ∷ zeros k s

-- `f"{n:03d}"`
unfoldable pub format_03d : ℕ → Text
unfolding digits
format_03d n = let s = digits (suc n) n [] in zeros (3 - length s) s

-- `f"{n:06d}"`
unfoldable pub format_06d : ℕ → Text
unfolding digits
format_06d n = let s = digits (suc n) n [] in zeros (6 - length s) s

-- `f"{correlation_id}-{sequence:03d}"`
unfoldable pub numbered_id : Text → ℕ → Text
numbered_id correlation_id sequence = correlation_id ++ text "-" ++ format_03d sequence

module _ {F : Type 0} where
  -- `d[key] = value`: in place of the old value, or at the end.
  unfoldable pub set_field : Text → Json F → Fields F → Fields F
  set_field key value end = field key value end
  set_field key value (field k x fs) =
      let rest = set_field key value fs in
      if text_eq key k then field k value fs else field k x rest

  -- `d | e`
  unfoldable pub merge : Fields F → Fields F → Fields F
  unfolding set_field
  merge d end = d
  merge d (field k x fs) = merge (set_field k x d) fs

  -- `_base_payload`
  unfoldable pub base_payload : Task → Fields F
  base_payload task = field (text "object_id") (string task.object_id) (
      field (text "pickup_zone") (string (zone_value task.pickup_zone))
        (field (text "delivery_zone") (string (zone_value task.delivery_zone)) end))

  -- A payload that adds a status, and one that adds a status and a target zone.
  abbrev pub with_status : Task → Text → Fields F
  with_status task status = merge (base_payload task) (field (text "status") (string status) end)

  abbrev pub with_target : Task → Text → Zone → Fields F
  with_target task status zone = merge (base_payload task) (
      field (text "status") (string status)
        (field (text "current_target_zone") (string (zone_value zone)) end))

  -- The list of the three zones of a plan.
  abbrev pub planned_route : Task → Json F
  planned_route task = array (
      cons (string (zone_value base)) (
        cons (string (zone_value task.pickup_zone))
          (cons (string (zone_value task.delivery_zone)) nil)))
