-- ===== src/Tests/Neck.antt =====
-- robot/vr_gateway/neck.py at concrete inputs.
use valera_control_tower.Base.{◌≡◌, refl, ok, ℤ, pos, negsuc}
use valera_control_tower.Messages.{Quaternion}
use valera_control_tower.Messages.Validation.{quaternion}
use valera_control_tower.Neck.{
  NeckControlConfig, NeckController, check_config, identity_quaternion, neck_controller, update,
  elapsed_seconds, relative_angles_degrees, filter_alpha, move_target, initial_target,
}
use valera_control_tower.Neck.Safety.{IsSafe, neck_controller-IsSafe, update-IsSafe}
use valera_control_tower.Neck.Rate.{TurnsFrom, update-TurnsFrom}
use valera_control_tower.Tests.Floats.{whole, whole-IsIeee}

abbrev pub config : NeckControlConfig ℤ
config = record {
  center_pan_degrees = pos 0;
  center_tilt_degrees = pos 0;
  initial_pan_degrees = pos 0;
  initial_tilt_degrees = pos 0;
  pan_gain = pos 1;
  tilt_gain = pos 1;
  filter_time_constant_seconds = pos 0;
  max_pan_rate_degrees_per_second = pos 20;
  max_tilt_rate_degrees_per_second = pos 20;
  min_pan_degrees = negsuc 29;
  max_pan_degrees = pos 30;
  min_tilt_degrees = negsuc 19;
  max_tilt_degrees = pos 20;
}

abbrev pub straight : Quaternion ℤ
straight = record { x = pos 0; y = pos 0; z = pos 0; w = pos 1 }

-- Half a turn to the back.
abbrev pub backward : Quaternion ℤ
backward = record { x = pos 0; y = pos 1; z = pos 0; w = pos 0 }

abbrev pub neck : NeckController ℤ
neck = record {
  config = config;
  reference = straight;
  base_pan_degrees = pos 0;
  base_tilt_degrees = pos 0;
  filtered_yaw_degrees = pos 0;
  filtered_pitch_degrees = pos 0;
  last_update_ns = 0;
  last_target = initial_target config;
}

pub config_checked : check_config whole config ≡ ok config
unfolding check_config
config_checked = refl

pub neck_built : neck_controller whole config ≡ ok neck
unfolding neck_controller identity_quaternion quaternion
neck_built = refl

-- After one second the neck has turned by its rate; after two it is at its limit.
turned :
    (update whole neck backward 1_000_000_000).1
    ≡ ok (record { pan_degrees = pos 20; tilt_degrees = pos 0 })
unfolding update elapsed_seconds relative_angles_degrees filter_alpha move_target
turned = refl

turned_twice :
    (update whole neck backward 2_000_000_000).1
    ≡ ok (record { pan_degrees = pos 30; tilt_degrees = pos 0 })
unfolding update elapsed_seconds relative_angles_degrees filter_alpha move_target
turned_twice = refl

pub neck-IsSafe : IsSafe whole neck
neck-IsSafe = neck_controller-IsSafe whole config config neck config_checked neck_built

update-IsSafe_example : IsSafe whole (update whole neck backward 2_000_000_000).0
update-IsSafe_example = update-IsSafe whole whole-IsIeee neck backward 2_000_000_000 neck-IsSafe

update-TurnsFrom_example :
    TurnsFrom whole neck (pos 1) (record { pan_degrees = pos 20; tilt_degrees = pos 0 })
unfolding elapsed_seconds
update-TurnsFrom_example =
    update-TurnsFrom whole whole-IsIeee neck backward 1_000_000_000 _ (pos 1) neck-IsSafe refl
      turned
