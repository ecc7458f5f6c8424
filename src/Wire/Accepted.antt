-- ===== src/Wire/Accepted.antt =====
-- robot/vr_gateway/wire.py: the commands that `decode_command` returns.
use valera_control_tower.Base.{
  ℕ, ◌≡◌, refl, sym, ap, Bool, true, false, not, arith, Option, none, some, Text, text, text_eq,
  is_empty, length, ◌&&◌, ◌||◌, strips_to_empty, isspace, leb, Result, ok, ◌>>=◌, raise_from,
  wire_error, bind-ok, raise_from-ok, guard-ok, ok-injective,
}
use valera_control_tower.Base.Float.{FloatOps}
use valera_control_tower.Messages.{
  CommandName, session_start, session_stop, mode_set, head_pose, head_recenter, Quaternion,
  Position, quest_local_frame, PosePayload, Payload, empty_payload, session_start_payload,
  mode_set_payload, pose_payload, CommandEnvelope,
}
use valera_control_tower.Messages.Validation.{
  Value, none_value, str_value, require_text, require_nonempty_string, validate_optional_position,
  validate_orientation, validate_pose,
}
use valera_control_tower.Wire.{
  Json, object, Fields, max_int64, session_start_keys, mode_set_keys, head_recenter_keys,
  head_pose_keys, pose_required_keys,
}
use valera_control_tower.Wire.Decode.{
  position_object, quaternion_object, check_int_field, int_field, check_session_id,
  session_id_field, text_field, mode_field, pose, is_validation_error, decode_quaternion,
}
use valera_control_tower.Wire.Command.{
  decode_empty_payload, decode_session_start, decode_mode_set, decode_head_pose, optional_position,
  decode_head_recenter, decode_payload,
}
use valera_control_tower.Wire.Document.{get_field, has_keys, only_keys, same_keys}

-- The payload that the contract gives to a command.
unfoldable pub fits : {F : Type 0} → CommandName → Payload F → Bool
fits session_start (session_start_payload mode) = text_eq mode (text "head")
fits session_stop empty_payload = true
fits mode_set (mode_set_payload mode) = not (is_empty mode || isspace mode) && leb (length mode) 64
fits head_pose (pose_payload p) = true
fits head_recenter (pose_payload p) = elim p.position [ none ↦ true | some x ↦ false ]
fits CommandName.emergency_stop empty_payload = true
fits _ _ = false

pub record IsContract {F : Type 0} (c : CommandEnvelope F) : Type 0 where
  pub sequence_min : leb 1 c.sequence ≡ true
  pub sequence_max : leb c.sequence max_int64 ≡ true
  pub timestamp_max : leb c.timestamp_ms max_int64 ≡ true
  pub session_nonblank : strips_to_empty c.session_id ≡ false
  pub payload_fits : fits c.command c.payload ≡ true

module _ {F : Type 0} where
  pub int_field-bounds :
      (m n : ℕ) (j : Json F) → int_field m j ≡ ok n → (leb m n ≡ true) × (leb n max_int64 ≡ true)
  unfolding int_field check_int_field
  int_field-bounds m n j h = ground arith

  pub session_id_field-nonblank :
      (j : Json F) (s : Text) → session_id_field j ≡ ok s → strips_to_empty s ≡ false
  unfolding session_id_field check_session_id
  session_id_field-nonblank j s h = ground arith

  pub nonempty_same :
      (v : Value F) (s t : Text) → v ≡ str_value s → require_nonempty_string v ≡ ok t → s ≡ t
  unfolding require_nonempty_string
  nonempty_same v s t e h = ground arith

  decode_empty_payload-fits :
      (fs : Fields F) (p : Payload F) → decode_empty_payload fs ≡ ok p → p ≡ empty_payload
  unfolding decode_empty_payload
  decode_empty_payload-fits fs p h = ground arith

  text_field-same : (s t : Text) (j : Json F) → text_field s j ≡ ok t → text_eq t s ≡ true
  unfolding text_field
  text_field-same s t j h = ground arith

  decode_session_start-fits :
      (fs : Fields F) (p : Payload F) → decode_session_start fs ≡ ok p → fits session_start p ≡ true
  unfolding decode_session_start fits
  decode_session_start-fits fs p h =
      let hu = guard-ok (not (same_keys session_start_keys fs)) wire_error _ h in
      let (r, er, hr) =
        bind-ok (get_field (text "requested_mode") fs >>= text_field (text "head")) _ hu in
      let (j, ej, hj) = bind-ok (get_field (text "requested_mode") fs) _ er in
      let (m, em, hm) =
        bind-ok
          (raise_from is_validation_error wire_error
            (require_nonempty_string {F = F} (str_value r)))
          _ hr in
      let hp : session_start_payload m ≡ p = ok-injective hm in
      rw
        (
          sym hp,
          sym (
              nonempty_same (str_value r) r m refl
                (raise_from-ok is_validation_error wire_error _ em)),
        )
        (text_field-same (text "head") r j hj)

  mode_field-fits :
      (j : Json F) (s : Text)
      → mode_field j ≡ ok s
      → fits {F = F} mode_set (mode_set_payload s) ≡ true
  unfolding mode_field fits
  mode_field-fits j s h = ground arith

  decode_mode_set-fits :
      (fs : Fields F) (p : Payload F) → decode_mode_set fs ≡ ok p → fits mode_set p ≡ true
  unfolding decode_mode_set fits
  decode_mode_set-fits fs p h =
      let hu = guard-ok (not (same_keys mode_set_keys fs)) wire_error _ h in
      let (r, er, hr) = bind-ok (get_field (text "mode") fs >>= mode_field) _ hu in
      let (j, ej, hj) = bind-ok (get_field (text "mode") fs) _ er in
      let (m, em, hm) =
        bind-ok
          (raise_from is_validation_error wire_error
            (require_nonempty_string {F = F} (str_value r)))
          _ hr in
      let hp : mode_set_payload m ≡ p = ok-injective hm in
      rw
        (
          sym hp,
          sym (
              nonempty_same (str_value r) r m refl
                (raise_from-ok is_validation_error wire_error _ em)),
        )
        (mode_field-fits j r hj)

  -- A chain of two lookups.
  pub field-ok :
      {A : Type 0} (k : Text) (fs : Fields F) (f : Json F → Result A) {a : A}
      → (get_field k fs >>= f) ≡ ok a
      → (j : Json F) × (f j ≡ ok a)
  field-ok k fs f h = let (j, ej, hj) = bind-ok (get_field k fs) f h in (j, hj)

module _ (fl : FloatOps) where
  open fl use {F}

  pose-fits :
      (t : Text) (o : Quaternion F) (x : Option (Position F)) (p : Payload F)
      → pose fl t o x ≡ ok p
      → (q : PosePayload F) × (p ≡ pose_payload q)
  pose-fits t o x p h =
      let (q, eq, hq) =
        bind-ok
          (raise_from is_validation_error wire_error
            (validate_pose fl (str_value t) (quaternion_object o) (position_object x)))
          _ h in
      let hp : pose_payload q ≡ p = ok-injective hq in (q, sym hp)

  pose_without_position :
      (t : Text) (o : Quaternion F) (p : Payload F)
      → pose fl t o none ≡ ok p
      → (q : PosePayload F) × (p ≡ pose_payload q) × (q.position ≡ none)
  unfolding validate_pose validate_optional_position
  pose_without_position t o p h =
      let (q, eq, hq) =
        bind-ok
          (raise_from is_validation_error wire_error
            (validate_pose fl (str_value t) (quaternion_object o) none_value))
          _ h in
      let hp : pose_payload q ≡ p = ok-injective hq in
      let hv = raise_from-ok is_validation_error wire_error _ eq in
      let (f, ef, hf) = bind-ok (require_text {F = F} quest_local_frame (str_value t)) _ hv in
      let (o', eo, ho) = bind-ok (validate_orientation fl (quaternion_object o)) _ hf in
      let hr : record { frame = f; orientation = o'; position = none } ≡ q = ok-injective ho in
      (q, sym hp, ap (λ r. r.position) (sym hr))

  decode_head_pose-fits :
      (fs : Fields F) (p : Payload F) → decode_head_pose fl fs ≡ ok p → fits head_pose p ≡ true
  unfolding decode_head_pose fits
  decode_head_pose-fits fs p h =
      let h1 = guard-ok (not (has_keys pose_required_keys fs)) wire_error _ h in
      let h2 = guard-ok (not (only_keys head_pose_keys fs)) wire_error _ h1 in
      let (t, et, ht) =
        bind-ok (get_field (text "frame") fs >>= text_field quest_local_frame) _ h2 in
      let (o, eo, ho) = bind-ok (get_field (text "orientation") fs >>= decode_quaternion fl) _ ht in
      let (x, ex, hx) = bind-ok (optional_position fl fs) _ ho in
      let (q, hq) = pose-fits t o x p hx in rw (hq)

  recenter-fits :
      (p : Payload F) (q : PosePayload F)
      → p ≡ pose_payload q
      → q.position ≡ none
      → fits head_recenter p ≡ true
  unfolding fits
  recenter-fits p q h e = rw (h, e)

  decode_head_recenter-fits :
      (fs : Fields F) (p : Payload F)
      → decode_head_recenter fl fs ≡ ok p
      → fits head_recenter p ≡ true
  unfolding decode_head_recenter fits
  decode_head_recenter-fits fs p h =
      let h1 = guard-ok (not (same_keys head_recenter_keys fs)) wire_error _ h in
      let (t, et, ht) =
        bind-ok (get_field (text "frame") fs >>= text_field quest_local_frame) _ h1 in
      let (o, eo, ho) = bind-ok (get_field (text "orientation") fs >>= decode_quaternion fl) _ ht in
      let (q, hq, e) = pose_without_position t o p ho in recenter-fits p q hq e

  pub decode_payload-fits :
      (k : CommandName) (j : Json F) (p : Payload F)
      → decode_payload fl k j ≡ ok p
      → fits k p ≡ true
  unfolding decode_payload fits
  decode_payload-fits session_start (object fs) p h = decode_session_start-fits fs p h
  decode_payload-fits session_stop (object fs) p h = rw (decode_empty_payload-fits fs p h)
  decode_payload-fits mode_set (object fs) p h = decode_mode_set-fits fs p h
  decode_payload-fits CommandName.emergency_stop (object fs) p h =
      rw (decode_empty_payload-fits fs p h)
  decode_payload-fits head_pose (object fs) p h = decode_head_pose-fits fs p h
  decode_payload-fits head_recenter (object fs) p h = decode_head_recenter-fits fs p h
  decode_payload-fits k _ p h = cc
