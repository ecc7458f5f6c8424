-- ===== src/Neck/Safety.antt =====
-- robot/vr_gateway/neck.py: what the methods of the controller keep.
use valera_control_tower.Base.{ℕ, ◌≡◌, Bool, true, false, arith, ok, inl, inr, Result-cases}
use valera_control_tower.Base.Float.{FloatOps, IsIeee}
use valera_control_tower.Messages.{Quaternion}
use valera_control_tower.Neck.{
  NeckControlConfig, NeckTarget, NeckController, check_config, neck_controller, recenter,
  move_target, update, initial_target, elapsed_seconds, relative_angles_degrees, filter_alpha,
}
use valera_control_tower.Neck.Bounds.{IsWithin, move_target-IsWithin}

module _ (fl : FloatOps) where
  open fl use {F, lef, ltf, isfinite, zero_f}

  -- What `NeckControlConfig.__post_init__` ensures of the limits and the rates.
  pub record IsConfigured (c : NeckControlConfig F) : Type 0 where
    pub starts_within : IsWithin fl c (initial_target c)
    pub min_pan_finite : isfinite c.min_pan_degrees ≡ true
    pub max_pan_finite : isfinite c.max_pan_degrees ≡ true
    pub min_tilt_finite : isfinite c.min_tilt_degrees ≡ true
    pub max_tilt_finite : isfinite c.max_tilt_degrees ≡ true
    pub pan_rate_finite : isfinite c.max_pan_rate_degrees_per_second ≡ true
    pub tilt_rate_finite : isfinite c.max_tilt_rate_degrees_per_second ≡ true
    pub pan_rate_positive : lef c.max_pan_rate_degrees_per_second zero_f ≡ false
    pub tilt_rate_positive : lef c.max_tilt_rate_degrees_per_second zero_f ≡ false

  -- A controller whose configuration was checked and whose target lies within its limits.
  pub record IsSafe (n : NeckController F) : Type 0 where
    pub configured : IsConfigured n.config
    pub within : IsWithin fl n.config n.last_target

  check_config-IsConfigured :
      (c d : NeckControlConfig F) → check_config fl c ≡ ok d → IsConfigured d
  unfolding check_config
  check_config-IsConfigured c d h = ground arith

  -- A controller built from a configuration that passes its checks is safe from the start.
  pub neck_controller-IsSafe :
      (c d : NeckControlConfig F) (n : NeckController F)
      → check_config fl c ≡ ok d
      → neck_controller fl d ≡ ok n
      → IsSafe n
  unfolding neck_controller
  neck_controller-IsSafe c d n h e = ground (arith, check_config-IsConfigured c d h)

  -- Recentering keeps a controller safe, with the target kept and with the target reset.
  pub recenter-IsSafe :
      (n : NeckController F) (q : Quaternion F) (now : ℕ) (preserve : Bool)
      → IsSafe n
      → IsSafe (recenter fl n q now preserve)
  unfolding recenter
  recenter-IsSafe n q now true v = record { configured = v.configured; within = v.within }
  recenter-IsSafe n q now false v = record {
    configured = v.configured;
    within = v.configured.starts_within;
  }

module _ (fl : FloatOps) (o : IsIeee fl) where
  open fl use {F, lef, ltf, isfinite, zero_f, sub, add, mul}

  configured_ordered :
      (c : NeckControlConfig F)
      → IsConfigured fl c
      → (lef c.min_pan_degrees c.max_pan_degrees ≡ true)
        × (lef c.min_tilt_degrees c.max_tilt_degrees ≡ true)
  configured_ordered c v = (
    o.lef_trans _ c.initial_pan_degrees _ v.starts_within.pan_above v.starts_within.pan_below,
    o.lef_trans _ c.initial_tilt_degrees _ v.starts_within.tilt_above v.starts_within.tilt_below,
  )

  move_target-IsSafe :
      (n : NeckController F) (now : ℕ) (dt yaw pitch alpha : F)
      → IsSafe fl n
      → IsSafe fl (move_target fl (record n { last_update_ns = now }) dt yaw pitch alpha)
  unfolding move_target
  move_target-IsSafe n now dt yaw pitch alpha v =
      let h = configured_ordered n.config v.configured in
      record {
        configured = v.configured;
        within =
            move_target-IsWithin fl o (record n { last_update_ns = now }) dt yaw pitch alpha h.0
              h.1;
      }

  -- `update` keeps a controller safe, whether it returns or raises.
  pub update-IsSafe :
      (n : NeckController F) (q : Quaternion F) (now : ℕ)
      → IsSafe fl n
      → IsSafe fl (update fl n q now).0
  unfolding update
  update-IsSafe n q now v = elim (Result-cases (elapsed_seconds fl n now)) [
    | inr (x, i) ↦ rw (i, update) v
    | inl (dt, i) ↦ elim (Result-cases (relative_angles_degrees fl n.reference q)) [
      | inr (x, j) ↦ rw (i, update) (rw j (record { configured = v.configured; within = v.within }))
      | inl (angles, j) ↦ turned dt angles i j
    ]
  ]
    where
      turned :
          (dt : F) (angles : F × F)
          → elapsed_seconds fl n now ≡ ok dt
          → relative_angles_degrees fl n.reference q ≡ ok angles
          → IsSafe fl (update fl n q now).0
      turned dt angles i j =
          elim (Result-cases (filter_alpha fl dt n.config.filter_time_constant_seconds)) [
            | inr (x, k) ↦
                rw (i, update)
                  (rw j (rw k (record { configured = v.configured; within = v.within })))
            | inl (alpha, k) ↦
                rw (i, update) (rw j (rw k (move_target-IsSafe n now dt angles.0 angles.1 alpha v)))
          ]

module _ (fl : FloatOps) where
  open fl use {F}

  -- No method changes the configuration.
  pub update_config :
      (n : NeckController F) (q : Quaternion F) (now : ℕ) → (update fl n q now).0.config ≡ n.config
  unfolding update move_target
  update_config n q now = ground arith

  pub neck_controller_config :
      (c : NeckControlConfig F) (n : NeckController F) → neck_controller fl c ≡ ok n → n.config ≡ c
  unfolding neck_controller
  neck_controller_config c n e = ground arith

  pub recenter_config :
      (n : NeckController F) (q : Quaternion F) (now : ℕ) (preserve : Bool)
      → (recenter fl n q now preserve).config ≡ n.config
  unfolding recenter
  recenter_config n q now preserve = ground arith

  -- What `update` returns is what it stores.
  pub update_target :
      (n : NeckController F) (q : Quaternion F) (now : ℕ) (t : NeckTarget F)
      → (update fl n q now).1 ≡ ok t
      → (update fl n q now).0.last_target ≡ t
  unfolding update
  update_target n q now t e = ground arith
