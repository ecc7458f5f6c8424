-- ===== src/Neck/Rate.antt =====
-- robot/vr_gateway/neck.py: how far one update turns the neck.
use mathlib.Core.Path.{subst}
use valera_control_tower.Base.{ℕ, ◌≡◌, true, false, arith, ok, inl, inr, Result-cases}
use valera_control_tower.Base.Float.{FloatOps, IsIeee, max_f}
use valera_control_tower.Messages.{Quaternion}
use valera_control_tower.Neck.{
  NeckTarget, NeckController, clamp, rate_limit, move_target, update, elapsed_seconds,
  relative_angles_degrees, filter_alpha,
}
use valera_control_tower.Neck.Bounds.{clamp_bounds, clamp_window}
use valera_control_tower.Neck.Safety.{IsSafe}

module _ (fl : FloatOps) where
  open fl use {F, lef, sub, add, mul}

  -- The window of one update around the last angle.
  abbrev pub Moves : F → F → F → F → Type 0
  Moves rate dt previous angle =
      (lef (sub previous (mul rate dt)) angle ≡ true)
      × (lef angle (add previous (mul rate dt)) ≡ true)

  -- The two axes of `t` lie in their windows around the target of `n`.
  abbrev pub TurnsFrom : NeckController F → F → NeckTarget F → Type 0
  TurnsFrom n dt t =
      Moves n.config.max_pan_rate_degrees_per_second dt n.last_target.pan_degrees t.pan_degrees
      × Moves n.config.max_tilt_rate_degrees_per_second dt n.last_target.tilt_degrees t.tilt_degrees

module _ (fl : FloatOps) (o : IsIeee fl) where
  open fl use {F, lef, ltf, isfinite, zero_f, sub, add, mul}

  le_number : (a b : F) → isfinite a ≡ true → isfinite b ≡ true → lef a b ≡ false → ltf b a ≡ true
  le_number a b ha hb = o.lt_of_not_le a b (o.finite_number a ha) (o.finite_number b hb)

  max_nonneg : (s : F) → lef zero_f (max_f fl zero_f s) ≡ true
  max_nonneg s = ground (arith, o.lt-le zero_f s, o.finite_number zero_f o.zero_finite)

  elapsed_nonneg :
      (n : NeckController F) (now : ℕ) (dt : F)
      → elapsed_seconds fl n now ≡ ok dt
      → lef zero_f dt ≡ true
  unfolding elapsed_seconds
  elapsed_nonneg n now dt h = grind (arith, max_nonneg)

  limited-Moves :
      (requested previous rate dt minimum maximum : F)
      → isfinite minimum ≡ true
      → isfinite maximum ≡ true
      → isfinite rate ≡ true
      → lef rate zero_f ≡ false
      → lef zero_f dt ≡ true
      → lef minimum previous ≡ true
      → lef previous maximum ≡ true
      → Moves fl rate dt previous
          (clamp fl (rate_limit fl requested previous (mul rate dt)) minimum maximum)
  unfolding rate_limit
  limited-Moves requested previous rate dt minimum maximum fmin fmax frate positive hdt above
        below =
      clamp_window fl o _ minimum maximum (sub previous step) (add previous step) previous inside.0
        inside.1 low high above below
    where
      step : F
      step = mul rate dt

      finite : isfinite previous ≡ true
      finite = o.finite_between minimum previous maximum fmin fmax above below

      forward : lef zero_f step ≡ true
      forward = o.mul_nonneg rate dt frate (le_number rate zero_f frate o.zero_finite positive) hdt

      low : lef (sub previous step) previous ≡ true
      low = o.sub_le previous step finite forward

      high : lef previous (add previous step) ≡ true
      high = o.le_add previous step finite forward

      inside :
          (lef (sub previous step) (clamp fl requested (sub previous step) (add previous step))
            ≡ true)
          × (lef (clamp fl requested (sub previous step) (add previous step)) (add previous step)
              ≡ true)
      inside =
          clamp_bounds fl o requested (sub previous step) (add previous step)
            (o.lef_trans _ previous _ low high)

  move_target-TurnsFrom :
      (n : NeckController F) (now : ℕ) (dt yaw pitch alpha : F)
      → IsSafe fl n
      → lef zero_f dt ≡ true
      → TurnsFrom fl n dt
          (move_target fl (record n { last_update_ns = now }) dt yaw pitch alpha).last_target
  unfolding move_target
  move_target-TurnsFrom n now dt yaw pitch alpha v hdt = (
    limited-Moves _ _ _ dt n.config.min_pan_degrees n.config.max_pan_degrees
        v.configured.min_pan_finite v.configured.max_pan_finite v.configured.pan_rate_finite
        v.configured.pan_rate_positive hdt v.within.pan_above v.within.pan_below,
    limited-Moves _ _ _ dt n.config.min_tilt_degrees n.config.max_tilt_degrees
        v.configured.min_tilt_finite v.configured.max_tilt_finite v.configured.tilt_rate_finite
        v.configured.tilt_rate_positive hdt v.within.tilt_above v.within.tilt_below,
  )

  -- An update that returns turns each axis by at most its maximal rate times the elapsed time.
  pub update-TurnsFrom :
      (n : NeckController F) (q : Quaternion F) (now : ℕ) (t : NeckTarget F) (dt : F)
      → IsSafe fl n
      → elapsed_seconds fl n now ≡ ok dt
      → (update fl n q now).1 ≡ ok t
      → TurnsFrom fl n dt t
  unfolding update
  update-TurnsFrom n q now t dt v h =
      elim (Result-cases (relative_angles_degrees fl n.reference q)) [
        | inr (x, j) ↦ rw (h, update) (rw j (λ e. cc))
        | inl (angles, j) ↦
            elim (Result-cases (filter_alpha fl dt n.config.filter_time_constant_seconds)) [
              | inr (x, k) ↦ rw (h, update) (rw j (rw k (λ e. cc)))
              | inl (alpha, k) ↦
                  rw (h, update)
                    (rw j (rw k (λ e. subst (TurnsFrom fl n dt) (cc) (turned angles alpha))))
            ]
      ]
    where
      turned :
          (angles : F × F) (alpha : F)
          → TurnsFrom fl n dt
              (move_target fl
                (record n { last_update_ns = now })
                dt
                angles.0
                angles.1
                alpha).last_target
      turned angles alpha =
          move_target-TurnsFrom n now dt angles.0 angles.1 alpha v (elapsed_nonneg n now dt h)
