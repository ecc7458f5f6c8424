-- ===== src/Neck.antt =====
-- robot/vr_gateway/neck.py: the neck controller. A method returns the controller and its result,
-- since an exception leaves behind what was assigned before it.
pub mod Bounds
pub mod Safety
pub mod Rate
use valera_control_tower.Base.{
  ℕ, Bool, true, false, Option, none, some, List, [], ◌∷◌, ◌&&◌, not, Result, ok, raised, ◌>>=◌,
  ◌>>◌, raise_if, value_error, overflow_error, sub_ℕ, if◌then◌else◌,
}
use valera_control_tower.Base.Float.{FloatOps, max_f, min_f}
use valera_control_tower.Messages.{Quaternion}
use valera_control_tower.Messages.Validation.{Value, float_value, quaternion, quotient}

pub record NeckControlConfig (F : Type 0) : Type 0 where
  pub center_pan_degrees : F
  pub center_tilt_degrees : F
  pub initial_pan_degrees : F
  pub initial_tilt_degrees : F
  pub pan_gain : F
  pub tilt_gain : F
  pub filter_time_constant_seconds : F
  pub max_pan_rate_degrees_per_second : F
  pub max_tilt_rate_degrees_per_second : F
  pub min_pan_degrees : F
  pub max_pan_degrees : F
  pub min_tilt_degrees : F
  pub max_tilt_degrees : F

pub record NeckTarget (F : Type 0) : Type 0 where
  pub pan_degrees : F
  pub tilt_degrees : F

pub record NeckController (F : Type 0) : Type 0 where
  pub config : NeckControlConfig F
  pub reference : Quaternion F
  pub base_pan_degrees : F
  pub base_tilt_degrees : F
  pub filtered_yaw_degrees : F
  pub filtered_pitch_degrees : F
  pub last_update_ns : ℕ
  pub last_target : NeckTarget F

abbrev pub initial_target : {F : Type 0} → NeckControlConfig F → NeckTarget F
initial_target c = record {
  pan_degrees = c.initial_pan_degrees;
  tilt_degrees = c.initial_tilt_degrees;
}

module _ (fl : FloatOps) where
  open fl use {
    F, zero_f, one_f, nanos, add, sub, mul, neg, ltf, lef, eqf, isfinite, of_int, exp, atan2,
    degrees, hypot,
  }

  abbrev all_finite : List F → Bool
  all_finite [] = true
  all_finite (v ∷ vs) = isfinite v && all_finite vs

  abbrev fields : NeckControlConfig F → List F
  fields c =
      c.center_pan_degrees ∷ c.center_tilt_degrees ∷ c.initial_pan_degrees ∷ c.initial_tilt_degrees
      ∷ c.pan_gain ∷ c.tilt_gain ∷ c.filter_time_constant_seconds
      ∷ c.max_pan_rate_degrees_per_second ∷ c.max_tilt_rate_degrees_per_second ∷ c.min_pan_degrees
      ∷ c.max_pan_degrees ∷ c.min_tilt_degrees ∷ c.max_tilt_degrees ∷ []

  -- `NeckControlConfig.__post_init__`
  unfoldable pub check_config : NeckControlConfig F → Result (NeckControlConfig F)
  check_config c = do
    raise_if (not (all_finite (fields c))) value_error
    raise_if (ltf c.max_pan_degrees c.min_pan_degrees) value_error
    raise_if (ltf c.max_tilt_degrees c.min_tilt_degrees) value_error
    raise_if
        (not (
          lef c.min_pan_degrees c.initial_pan_degrees
          && lef c.initial_pan_degrees c.max_pan_degrees))
        value_error
    raise_if
        (not (
          lef c.min_tilt_degrees c.initial_tilt_degrees
          && lef c.initial_tilt_degrees c.max_tilt_degrees))
        value_error
    raise_if (ltf c.filter_time_constant_seconds zero_f) value_error
    raise_if (lef c.max_pan_rate_degrees_per_second zero_f) value_error
    raise_if (lef c.max_tilt_rate_degrees_per_second zero_f) value_error
    ok c

  -- `Quaternion(0.0, 0.0, 0.0, 1.0)`, which goes through the checks of its constructor.
  unfoldable pub identity_quaternion : Result (Quaternion F)
  identity_quaternion =
      quaternion fl (float_value zero_f) (float_value zero_f) (float_value zero_f)
        (float_value one_f)

  -- `NeckController.__init__`
  unfoldable pub neck_controller : NeckControlConfig F → Result (NeckController F)
  neck_controller c = do
    identity ← identity_quaternion
    ok (record {
      config = c;
      reference = identity;
      base_pan_degrees = c.center_pan_degrees;
      base_tilt_degrees = c.center_tilt_degrees;
      filtered_yaw_degrees = zero_f;
      filtered_pitch_degrees = zero_f;
      last_update_ns = 0;
      last_target = initial_target c;
    })

  -- `NeckController.recenter`
  unfoldable pub recenter : NeckController F → Quaternion F → ℕ → Bool → NeckController F
  recenter n orientation now preserve_target =
      let m = record n {
        reference = orientation;
        filtered_yaw_degrees = zero_f;
        filtered_pitch_degrees = zero_f;
        last_update_ns = now;
      } in
      if preserve_target
      then record m {
        base_pan_degrees = n.last_target.pan_degrees;
        base_tilt_degrees = n.last_target.tilt_degrees;
      }
      else record m {
        base_pan_degrees = n.config.center_pan_degrees;
        base_tilt_degrees = n.config.center_tilt_degrees;
        last_target = initial_target n.config;
      }

  unfoldable pub clamp : F → F → F → F
  clamp value minimum maximum = min_f fl maximum (max_f fl minimum value)

  unfoldable pub rate_limit : F → F → F → F
  unfolding clamp
  rate_limit requested previous maximum_delta =
      clamp requested (sub previous maximum_delta) (add previous maximum_delta)

  unfoldable pub inverse : Quaternion F → Result (Quaternion F)
  unfolding quotient quaternion
  inverse v =
      let norm_squared = add (add (add (mul v.x v.x) (mul v.y v.y)) (mul v.z v.z)) (mul v.w v.w) in
      do
        a ← quotient fl (neg v.x) norm_squared
        b ← quotient fl (neg v.y) norm_squared
        c ← quotient fl (neg v.z) norm_squared
        d ← quotient fl v.w norm_squared
        quaternion fl (float_value a) (float_value b) (float_value c) (float_value d)

  unfoldable pub multiply : Quaternion F → Quaternion F → Result (Quaternion F)
  unfolding quaternion
  multiply l r =
      quaternion fl
        (float_value (sub (add (add (mul l.w r.x) (mul l.x r.w)) (mul l.y r.z)) (mul l.z r.y)))
        (float_value (add (add (sub (mul l.w r.y) (mul l.x r.z)) (mul l.y r.w)) (mul l.z r.x)))
        (float_value (add (sub (add (mul l.w r.z) (mul l.x r.y)) (mul l.y r.x)) (mul l.z r.w)))
        (float_value (sub (sub (sub (mul l.w r.w) (mul l.x r.x)) (mul l.y r.y)) (mul l.z r.z)))

  unfoldable pub rotate_forward : Quaternion F → Result (Quaternion F)
  unfolding multiply inverse
  rotate_forward v = do
    forward ←
        quaternion fl (float_value zero_f) (float_value zero_f) (float_value (neg one_f))
          (float_value zero_f)
    turned ← multiply v forward
    back ← inverse v
    multiply turned back

  unfoldable pub relative_angles_degrees : Quaternion F → Quaternion F → Result (F × F)
  unfolding rotate_forward
  relative_angles_degrees reference orientation = do
    inverted ← inverse reference
    relative ← multiply inverted orientation
    forward ← rotate_forward relative
    ok (
      degrees (atan2 (neg forward.x) (neg forward.z)),
      degrees (atan2 forward.y (hypot (forward.x ∷ forward.z ∷ []))),
    )

  unfoldable pub filter_alpha : F → F → Result F
  unfolding quotient
  filter_alpha dt_seconds time_constant_seconds =
      if eqf time_constant_seconds zero_f then ok one_f else do
        exponent ← quotient fl (neg dt_seconds) time_constant_seconds
        elim (exp exponent) [ none ↦ raised overflow_error | some e ↦ ok (sub one_f e) ]

  -- `max(0.0, (now_ns - self._last_update_ns) / 1_000_000_000.0)`
  unfoldable pub elapsed_seconds : NeckController F → ℕ → Result F
  unfolding quotient
  elapsed_seconds n now = elim (of_int (sub_ℕ now n.last_update_ns)) [
    | none ↦ raised overflow_error
    | some d ↦ quotient fl d nanos >>= λ s. ok (max_f fl zero_f s)
  ]

  -- The part of `update` behind the last call that can raise.
  unfoldable pub move_target : NeckController F → F → F → F → F → NeckController F
  unfolding rate_limit clamp
  move_target n dt yaw pitch alpha =
      let yaw' = add n.filtered_yaw_degrees (mul alpha (sub yaw n.filtered_yaw_degrees)) in
      let pitch' = add n.filtered_pitch_degrees (mul alpha (sub pitch n.filtered_pitch_degrees)) in
      let requested_pan = add n.base_pan_degrees (mul n.config.pan_gain yaw') in
      let requested_tilt = add n.base_tilt_degrees (mul n.config.tilt_gain pitch') in
      let pan =
        rate_limit requested_pan n.last_target.pan_degrees
          (mul n.config.max_pan_rate_degrees_per_second dt) in
      let tilt =
        rate_limit requested_tilt n.last_target.tilt_degrees
          (mul n.config.max_tilt_rate_degrees_per_second dt) in
      record n {
        filtered_yaw_degrees = yaw';
        filtered_pitch_degrees = pitch';
        last_target = record {
          pan_degrees = clamp pan n.config.min_pan_degrees n.config.max_pan_degrees;
          tilt_degrees = clamp tilt n.config.min_tilt_degrees n.config.max_tilt_degrees;
        };
      }

  -- `NeckController.update`
  unfoldable pub update :
      NeckController F → Quaternion F → ℕ → NeckController F × Result (NeckTarget F)
  update n orientation now = elim (elapsed_seconds n now) [
    | raised e ↦ (n, raised e)
    | ok dt ↦
        let n' = record n { last_update_ns = now } in
        elim (relative_angles_degrees n.reference orientation) [
          | raised e ↦ (n', raised e)
          | ok (yaw, pitch) ↦ elim (filter_alpha dt n.config.filter_time_constant_seconds) [
            | raised e ↦ (n', raised e)
            | ok alpha ↦ let m = move_target n' dt yaw pitch alpha in (m, ok m.last_target)
          ]
        ]
  ]
