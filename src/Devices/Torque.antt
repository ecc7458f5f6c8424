-- ===== src/Devices/Torque.antt =====
-- robot/adapters/sim_arm.py: the simulated arm never enables torque.
use valera_control_tower.Base.{◌≡◌, refl, All, Bool, false, List, [], ◌∷◌, Text, none, some}
use valera_control_tower.Devices.{ArmCommandResult}
use valera_control_tower.Devices.Simulated.{
  SimArmAdapter, sim_arm_adapter, arm_probe, simulate_grasp,
}

module _ {F : Type 0} where
  -- The arm after a list of grasps, and the results in order.
  unfoldable grasps : SimArmAdapter F → List Bool → SimArmAdapter F × List (ArmCommandResult F)
  grasps a [] = (a, [])
  grasps a (open_gripper ∷ more) =
      let (a', result) = simulate_grasp a open_gripper in
      let (a'', results) = grasps a' more in (a'', result ∷ results)

  -- A result whose state, if there is one, has its torque off.
  abbrev IsLimp : ArmCommandResult F → Type 0
  IsLimp r = elim r.state [ none ↦ Unit | some s ↦ s.torque_enabled ≡ false ]

  grasps-IsLimp :
      (a : SimArmAdapter F) (opens : List Bool)
      → a.state.torque_enabled ≡ false
      → ((grasps a opens).0.state.torque_enabled ≡ false) × All IsLimp (grasps a opens).1
  unfolding grasps simulate_grasp
  grasps-IsLimp a [] off = (off, tt)
  grasps-IsLimp a (o ∷ opens) off =
      let (later, limp) = grasps-IsLimp (simulate_grasp a o).0 opens refl in (later, (refl, limp))

  -- A simulated arm never enables its torque: however it is built and whatever grasps it makes,
  -- its state has the torque off, so has every result, and it says that it cannot enable it.
  sim_arm_adapter-IsLimp :
      (zero_f : F) (adapter_id : Text) (joints : List Text) (open_gripper : Bool)
      (opens : List Bool)
      → let (a, results) = grasps (sim_arm_adapter zero_f adapter_id joints open_gripper) opens in
        (a.state.torque_enabled ≡ false)
        × All IsLimp results
        × ((arm_probe a).capabilities.can_enable_torque ≡ false)
  unfolding sim_arm_adapter arm_probe
  sim_arm_adapter-IsLimp zero_f adapter_id joints open_gripper opens =
      let (off, limp) =
        grasps-IsLimp (sim_arm_adapter zero_f adapter_id joints open_gripper) opens refl in
      (off, limp, refl)
