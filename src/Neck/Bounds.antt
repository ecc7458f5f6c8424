-- ===== src/Neck/Bounds.antt =====
-- robot/vr_gateway/neck.py: the limits of the target, first of `_clamp` and of one movement.
use valera_control_tower.Base.{◌≡◌, true, arith}
use valera_control_tower.Base.Float.{FloatOps, IsIeee}
use valera_control_tower.Neck.{NeckControlConfig, NeckTarget, NeckController, clamp, move_target}

module _ (fl : FloatOps) where
  open fl use {F, lef, ltf, isfinite}

  -- The target lies within the limits of the configuration.
  pub record IsWithin (c : NeckControlConfig F) (t : NeckTarget F) : Type 0 where
    pub pan_above : lef c.min_pan_degrees t.pan_degrees ≡ true
    pub pan_below : lef t.pan_degrees c.max_pan_degrees ≡ true
    pub tilt_above : lef c.min_tilt_degrees t.tilt_degrees ≡ true
    pub tilt_below : lef t.tilt_degrees c.max_tilt_degrees ≡ true

module _ (fl : FloatOps) (o : IsIeee fl) where
  open fl use {F, lef, ltf, isfinite}
  open o use {lt-le, le_left, le_right, lef_trans, le_of_not_lt}

  -- `_clamp` ends within the limits for every float, NaN included.
  pub clamp_bounds :
      (value minimum maximum : F)
      → lef minimum maximum ≡ true
      → (lef minimum (clamp fl value minimum maximum) ≡ true)
        × (lef (clamp fl value minimum maximum) maximum ≡ true)
  unfolding clamp
  clamp_bounds value minimum maximum h = ground (
    arith,
    lt-le minimum value,
    lt-le value maximum,
    lt-le minimum maximum,
    le_left minimum maximum,
    le_right minimum maximum,
  )

  -- Clamping a value of a window around a point within the limits stays in the window.
  pub clamp_window :
      (value minimum maximum low high point : F)
      → lef low value ≡ true
      → lef value high ≡ true
      → lef low point ≡ true
      → lef point high ≡ true
      → lef minimum point ≡ true
      → lef point maximum ≡ true
      → (lef low (clamp fl value minimum maximum) ≡ true)
        × (lef (clamp fl value minimum maximum) high ≡ true)
  unfolding clamp
  clamp_window value minimum maximum low high point a b c d e f = ground (
    arith,
    le_left point maximum,
    le_right point maximum,
    le_right low value,
    le_left minimum point,
    le_of_not_lt minimum value,
    le_of_not_lt value maximum,
    le_of_not_lt minimum maximum,
    lef_trans low value minimum,
    lef_trans minimum point high,
    lef_trans maximum value high,
    lef_trans low point maximum,
    lef_trans maximum minimum high,
  )

  pub move_target-IsWithin :
      (n : NeckController F) (dt yaw pitch alpha : F)
      → lef n.config.min_pan_degrees n.config.max_pan_degrees ≡ true
      → lef n.config.min_tilt_degrees n.config.max_tilt_degrees ≡ true
      → IsWithin fl n.config (move_target fl n dt yaw pitch alpha).last_target
  unfolding move_target
  move_target-IsWithin n dt yaw pitch alpha hp ht =
      let p = clamp_bounds _ n.config.min_pan_degrees n.config.max_pan_degrees hp in
      let t = clamp_bounds _ n.config.min_tilt_degrees n.config.max_tilt_degrees ht in
      record { pan_above = p.0; pan_below = p.1; tilt_above = t.0; tilt_below = t.1 }
