-- ===== src/Wire/Contract.antt =====
-- robot/vr_gateway/wire.py: what a decoded command satisfies.
use valera_control_tower.Base.{
  ℕ, ◌≡◌, sym, ap, ◌∙◌, arith, Option, some, Text, Result, ok, ◌>>◌, pos, bind-ok, ok-injective,
}
use valera_control_tower.Base.Float.{FloatOps}
use valera_control_tower.Messages.{
  Quaternion, Position, PosePayload, Payload, CommandEnvelope, schema_version_text,
  quest_local_frame,
}
use valera_control_tower.Messages.Validation.{
  Value, none_value, float_value, session_start_value, mode_set_value, pose_value, empty_value,
  envelope_value, position_value, str_value, int_value, quaternion_value, attribute, require_text,
  require_nonempty_string, require_int, require_command, finite_float, finite_json_number,
  check_norm, validate_quaternion, validate_position, validate_orientation,
  validate_optional_position, validate_pose, validate_payload, envelope_post_init,
  validate_command_envelope,
}
use valera_control_tower.Wire.Decode.{
  quaternion_object, position_object, payload_object, envelope_object,
}

module _ (fl : FloatOps) where
  open fl use {F, isfinite}

  finite_json_number_again :
      (v : Value F) (a : F)
      → finite_json_number fl v ≡ ok a
      → finite_json_number fl (float_value a) ≡ ok a
  unfolding finite_json_number finite_float
  finite_json_number_again v a h = ground arith

  attribute-ok :
      {A : Type 0} (v : Value F) (k : Result A) {a : A} → (attribute v >> k) ≡ ok a → k ≡ ok a
  unfolding attribute
  attribute-ok v k h = ground arith

  check_norm-ok : (r q : Quaternion F) → check_norm fl r ≡ ok q → r ≡ q
  unfolding check_norm
  check_norm-ok r q h = ground arith

  validate_orientation-finite :
      (q : Quaternion F)
      → finite_json_number fl (float_value q.x) ≡ ok q.x
      → finite_json_number fl (float_value q.y) ≡ ok q.y
      → finite_json_number fl (float_value q.z) ≡ ok q.z
      → finite_json_number fl (float_value q.w) ≡ ok q.w
      → validate_orientation fl (quaternion_object q) ≡ check_norm fl q
  unfolding validate_orientation validate_quaternion attribute
  validate_orientation-finite q a b c d = rw (a, b, c, d)

  validate_quaternion_again :
      (vx vy vz vw : Value F) (q : Quaternion F)
      → validate_quaternion fl vx vy vz vw ≡ ok q
      → validate_orientation fl (quaternion_object q) ≡ ok q
  unfolding validate_quaternion
  validate_quaternion_again vx vy vz vw q h =
      let h4 = attribute-ok vw _ (attribute-ok vz _ (attribute-ok vy _ (attribute-ok vx _ h))) in
      let (a, ea, ha) = bind-ok (finite_json_number fl vx) _ h4 in
      let (b, eb, hb) = bind-ok (finite_json_number fl vy) _ ha in
      let (c, ec, hc) = bind-ok (finite_json_number fl vz) _ hb in
      let (d, ed, hd) = bind-ok (finite_json_number fl vw) _ hc in
      orientation_again a b c d hd (finite_json_number_again vx a ea)
        (finite_json_number_again vy b eb) (finite_json_number_again vz c ec)
        (finite_json_number_again vw d ed)
    where
      orientation_again :
          (a b c d : F)
          → check_norm fl (record { x = a; y = b; z = c; w = d }) ≡ ok q
          → finite_json_number fl (float_value a) ≡ ok a
          → finite_json_number fl (float_value b) ≡ ok b
          → finite_json_number fl (float_value c) ≡ ok c
          → finite_json_number fl (float_value d) ≡ ok d
          → validate_orientation fl (quaternion_object q) ≡ ok q
      orientation_again a b c d h ea eb ec ed =
          rw (sym (check_norm-ok _ q h), validate_orientation-finite _ ea eb ec ed)
            (h ∙ ap ok (sym (check_norm-ok _ q h)))

  validate_position_again :
      (vx vy vz : Value F) (p : Position F)
      → validate_position fl vx vy vz ≡ ok p
      → validate_optional_position fl (position_object (some p)) ≡ ok (some p)
  unfolding validate_position attribute validate_optional_position
  validate_position_again vx vy vz p h =
      ground (
        arith,
        finite_json_number_again vx,
        finite_json_number_again vy,
        finite_json_number_again vz,
      )

  require_text_again :
      (t s : Text) (v : Value F)
      → require_text t v ≡ ok s
      → require_text {F = F} t (str_value s) ≡ ok s
  unfolding require_text
  require_text_again t s v h = ground arith

  validate_orientation_again :
      (v : Value F) (q : Quaternion F)
      → validate_orientation fl v ≡ ok q
      → validate_orientation fl (quaternion_object q) ≡ ok q
  unfolding validate_orientation
  validate_orientation_again (quaternion_value a b c d) q h = validate_quaternion_again a b c d q h
  validate_orientation_again _ q h = cc

  validate_optional_position_again :
      (v : Value F) (p : Option (Position F))
      → validate_optional_position fl v ≡ ok p
      → validate_optional_position fl (position_object p) ≡ ok p
  unfolding validate_optional_position
  validate_optional_position_again none_value p h = rw (sym (ok-injective h))
  validate_optional_position_again (position_value a b c) p h =
      let (x, ex, hx) = bind-ok (validate_position fl a b c) _ h in
      rw (sym (ok-injective hx)) (validate_position_again a b c x ex)
  validate_optional_position_again _ p h = cc

  validate_pose_again :
      (vf vo vp : Value F) (p : PosePayload F)
      → validate_pose fl vf vo vp ≡ ok p
      → validate_pose fl
          (str_value p.frame)
          (quaternion_object p.orientation)
          (position_object p.position)
        ≡ ok p
  unfolding validate_pose
  validate_pose_again vf vo vp p h =
      let (f, ef, hf) = bind-ok (require_text quest_local_frame vf) _ h in
      let (o, eo, ho) = bind-ok (validate_orientation fl vo) _ hf in
      let (x, ex, hx) = bind-ok (validate_optional_position fl vp) _ ho in
      rw (
        sym (ok-injective hx),
        require_text_again quest_local_frame f vf ef,
        validate_orientation_again vo o eo,
        validate_optional_position_again vp x ex,
      )

  require_nonempty_string_again :
      (s : Text) (v : Value F)
      → require_nonempty_string v ≡ ok s
      → require_nonempty_string {F = F} (str_value s) ≡ ok s
  unfolding require_nonempty_string
  require_nonempty_string_again s v h = ground arith

  validate_payload_again :
      (v : Value F) (p : Payload F)
      → validate_payload fl v ≡ ok p
      → validate_payload fl (payload_object p) ≡ ok p
  unfolding validate_payload
  validate_payload_again (session_start_value v) p h =
      let (s, es, hs) = bind-ok (require_nonempty_string v) _ h in
      rw (sym (ok-injective hs), require_nonempty_string_again s v es)
  validate_payload_again (mode_set_value v) p h =
      let (s, es, hs) = bind-ok (require_nonempty_string v) _ h in
      rw (sym (ok-injective hs), require_nonempty_string_again s v es)
  validate_payload_again (pose_value vf vo vp) p h =
      let (x, ex, hx) = bind-ok (validate_pose fl vf vo vp) _ h in
      rw (sym (ok-injective hx), validate_pose_again vf vo vp x ex)
  validate_payload_again empty_value p h = rw (sym (ok-injective h))
  validate_payload_again _ p h = cc

  require_int_again :
      (m n : ℕ) (v : Value F)
      → require_int m v ≡ ok n
      → require_int {F = F} m (int_value (pos n)) ≡ ok n
  unfolding require_int
  require_int_again m n v h = ground arith

  -- An envelope that has been validated passes validation again, unchanged.
  pub validate-envelope_object :
      (v : Value F) (c : CommandEnvelope F)
      → validate_command_envelope fl v ≡ ok c
      → validate_command_envelope fl (envelope_object c) ≡ ok c
  unfolding validate_command_envelope envelope_post_init require_command
  validate-envelope_object (envelope_value vs vc vi vn vt vp) c h =
      let (s, es, hs) = bind-ok (require_text schema_version_text vs) _ h in
      let (k, ek, hk) = bind-ok (require_command vc) _ hs in
      let (i, ei, hi) = bind-ok (require_nonempty_string vi) _ hk in
      let (n, en, hn) = bind-ok (require_int 1 vn) _ hi in
      let (t, et, ht) = bind-ok (require_int 0 vt) _ hn in
      let (p, ep, hp) = bind-ok (validate_payload fl vp) _ ht in
      rw (
        sym (ok-injective hp),
        require_text_again schema_version_text s vs es,
        require_nonempty_string_again i vi ei,
        require_int_again 1 n vn en,
        require_int_again 0 t vt et,
        validate_payload_again vp p ep,
      )
  validate-envelope_object _ c h = cc
