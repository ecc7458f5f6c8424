-- ===== src/Wire/Envelope.antt =====
-- robot/vr_gateway/wire.py: what `decode_command` promises of the envelope that it returns.
use valera_control_tower.Base.{
  ℕ, ◌≡◌, refl, sym, true, false, not, arith, Option, none, some, Text, text, strips_to_empty, leb,
  ltb, length, ok, ◌>>=◌, wire_error, pos, bind-ok, then-ok, raise_from-ok, guard-ok, ok-injective,
  Option-cases, inl, inr,
}
use valera_control_tower.Base.Float.{FloatOps}
use valera_control_tower.Messages.{
  CommandName, head_pose, head_recenter, Position, PosePayload, Payload, empty_payload,
  session_start_payload, mode_set_payload, pose_payload, CommandEnvelope, schema_version_text,
  quest_local_frame,
}
use valera_control_tower.Messages.Validation.{
  Value, envelope_value, str_value, int_value, command_value, require_text, require_nonempty_string,
  require_int, require_command, validate_optional_position, validate_orientation, validate_pose,
  validate_payload, envelope_post_init, validate_command_envelope,
}
use valera_control_tower.Wire.{Json, object, max_int64, max_input_characters, envelope_keys}
use valera_control_tower.Wire.Decode.{
  Decoder, is_validation_error, position_object, quaternion_object, payload_object, envelope_object,
  int_field, session_id_field, text_field, command_field,
}
use valera_control_tower.Wire.Document.{get_field, same_keys}
use valera_control_tower.Wire.Command.{
  decode_payload, check_utf8, parse_json, decode_envelope, decode_command,
}
use valera_control_tower.Wire.Contract.{validate-envelope_object}
use valera_control_tower.Wire.Accepted.{
  fits, IsContract, decode_payload-fits, field-ok, int_field-bounds, session_id_field-nonblank,
  nonempty_same,
}

module _ (fl : FloatOps) where
  open fl use {F}

  same_int : (m n k : ℕ) (v : Value F) → v ≡ int_value (pos n) → require_int m v ≡ ok k → n ≡ k
  unfolding require_int
  same_int m n k v e h = ground arith

  same_command :
      (k c : CommandName) (v : Value F) → v ≡ command_value k → require_command v ≡ ok c → k ≡ c
  unfolding require_command
  same_command k c v e h = ground arith

  same_position :
      (x y : Option (Position F))
      → validate_optional_position fl (position_object x) ≡ ok y
      → x ≡ none
      → y ≡ none
  unfolding validate_optional_position
  same_position none y h e = sym (ok-injective h)
  same_position (some x) y h e = cc

  pose-fits_again :
      (k : CommandName) (p q : PosePayload F)
      → (p.position ≡ none → q.position ≡ none)
      → fits k (pose_payload p) ≡ true
      → fits k (pose_payload q) ≡ true
  unfolding fits
  pose-fits_again head_pose p q f e = refl
  pose-fits_again head_recenter p q f e = elim (Option-cases p.position) [
    | inl n ↦ rw (f n)
    | inr (x, s) ↦ ground arith
  ]
  pose-fits_again _ p q f e = e

  validate_pose-position :
      (p r : PosePayload F)
      → validate_pose fl
          (str_value p.frame)
          (quaternion_object p.orientation)
          (position_object p.position)
        ≡ ok r
      → p.position ≡ none
      → r.position ≡ none
  unfolding validate_pose
  validate_pose-position p r h e =
      let (f, ef, hf) = bind-ok (require_text {F = F} quest_local_frame (str_value p.frame)) _ h in
      let (o, eo, ho) = bind-ok (validate_orientation fl (quaternion_object p.orientation)) _ hf in
      let (x, ex, hx) = bind-ok (validate_optional_position fl (position_object p.position)) _ ho in
      let hr : record { frame = f; orientation = o; position = x } ≡ r = ok-injective hx in
      rw (sym hr) (same_position p.position x ex e)

  -- A payload that is validated again still fits its command.
  validate_payload-fits :
      (k : CommandName) (p q : Payload F)
      → validate_payload fl (payload_object p) ≡ ok q
      → fits k p ≡ true
      → fits k q ≡ true
  unfolding validate_payload
  validate_payload-fits k (session_start_payload m) q h e =
      let (s, es, hs) = bind-ok (require_nonempty_string {F = F} (str_value m)) _ h in
      let hq : session_start_payload s ≡ q = ok-injective hs in
      rw (sym hq, sym (nonempty_same {F = F} (str_value m) m s refl es)) e
  validate_payload-fits k (mode_set_payload m) q h e =
      let (s, es, hs) = bind-ok (require_nonempty_string {F = F} (str_value m)) _ h in
      let hq : mode_set_payload s ≡ q = ok-injective hs in
      rw (sym hq, sym (nonempty_same {F = F} (str_value m) m s refl es)) e
  validate_payload-fits k (pose_payload p) q h e =
      let (r, er, hr) =
        bind-ok
          (validate_pose fl (str_value p.frame) (quaternion_object p.orientation)
            (position_object p.position))
          _ h in
      let hq : pose_payload r ≡ q = ok-injective hr in
      rw (sym hq) (pose-fits_again k p r (validate_pose-position p r er) e)
  validate_payload-fits k empty_payload q h e =
      let hq : empty_payload ≡ q = ok-injective h in rw (sym hq) e

  envelope_post_init-fields :
      (vs vc vi vn vt vp : Value F) (c : CommandEnvelope F)
      → envelope_post_init fl vs vc vi vn vt vp ≡ ok c
      → (require_command vc ≡ ok c.command)
        × (require_nonempty_string vi ≡ ok c.session_id)
        × (require_int 1 vn ≡ ok c.sequence)
        × (require_int 0 vt ≡ ok c.timestamp_ms)
        × (validate_payload fl vp ≡ ok c.payload)
  unfolding envelope_post_init
  envelope_post_init-fields vs vc vi vn vt vp c h =
      let (s, es, hs) = bind-ok (require_text schema_version_text vs) _ h in
      let (k, ek, hk) = bind-ok (require_command vc) _ hs in
      let (i, ei, hi) = bind-ok (require_nonempty_string vi) _ hk in
      let (n, en, hn) = bind-ok (require_int 1 vn) _ hi in
      let (t, et, ht) = bind-ok (require_int 0 vt) _ hn in
      let (p, ep, hp) = bind-ok (validate_payload fl vp) _ ht in
      rw (sym (ok-injective hp)) (ek, ei, en, et, ep)

  envelope_post_init-IsContract :
      (k : CommandName) (i : Text) (n t : ℕ) (p : Payload F) (c : CommandEnvelope F)
      → envelope_post_init fl
          (str_value schema_version_text)
          (command_value k)
          (str_value i)
          (int_value (pos n))
          (int_value (pos t))
          (payload_object p)
        ≡ ok c
      → (leb 1 n ≡ true) × (leb n max_int64 ≡ true)
      → leb t max_int64 ≡ true
      → strips_to_empty i ≡ false
      → fits k p ≡ true
      → IsContract c
  envelope_post_init-IsContract k i n t p c h (n1, n2) t2 blank fit =
      let (k', i', n', t', p') = envelope_post_init-fields _ _ _ _ _ _ c h in
      record {
        sequence_min = rw (sym (same_int 1 n c.sequence _ refl n')) n1;
        sequence_max = rw (sym (same_int 1 n c.sequence _ refl n')) n2;
        timestamp_max = rw (sym (same_int 0 t c.timestamp_ms _ refl t')) t2;
        session_nonblank =
            rw (sym (nonempty_same {F = F} (str_value i) i c.session_id refl i')) blank;
        payload_fits =
            rw (sym (same_command k c.command _ refl k'))
              (validate_payload-fits k p c.payload p' fit);
      }

  -- A decoded document is an envelope of the contract, and the gateway's own validation takes it
  -- unchanged.
  decode_envelope-IsContract :
      (j : Json F) (c : CommandEnvelope F)
      → decode_envelope fl j ≡ ok c
      → IsContract c × (validate_command_envelope fl (envelope_object c) ≡ ok c)
  unfolding decode_envelope validate_command_envelope
  decode_envelope-IsContract (object fs) c h =
      let h1 = guard-ok (not (same_keys envelope_keys fs)) wire_error _ h in
      let (s, es, hs) =
        bind-ok (get_field (text "schema_version") fs >>= text_field schema_version_text) _ h1 in
      let (k, ek, hk) = bind-ok (get_field (text "command") fs >>= command_field) _ hs in
      let (i, ei, hi) = bind-ok (get_field (text "session_id") fs >>= session_id_field) _ hk in
      let (n, en, hn) = bind-ok (get_field (text "sequence") fs >>= int_field 1) _ hi in
      let (t, et, ht) = bind-ok (get_field (text "timestamp_ms") fs >>= int_field 0) _ hn in
      let (p, ep, hp) = bind-ok (get_field (text "payload") fs >>= decode_payload fl k) _ ht in
      let hv = raise_from-ok is_validation_error wire_error _ hp in
      let (jn, en') = field-ok (text "sequence") fs (int_field 1) en in
      let (jt, et') = field-ok (text "timestamp_ms") fs (int_field 0) et in
      let (ji, ei') = field-ok (text "session_id") fs session_id_field ei in
      let (jp, ep') = field-ok (text "payload") fs (decode_payload fl k) ep in
      (
        envelope_post_init-IsContract k i n t p c hv (int_field-bounds 1 n jn en')
            (int_field-bounds 0 t jt et').1 (session_id_field-nonblank ji i ei')
            (decode_payload-fits fl k jp p ep'),
        validate-envelope_object fl
            (envelope_value (str_value schema_version_text) (command_value k) (str_value i)
              (int_value (pos n)) (int_value (pos t)) (payload_object p))
            c hv,
      )
  decode_envelope-IsContract _ c h = cc

  -- Whatever the JSON decoder gives, a command that `decode_command` returns satisfies the wire
  -- contract: a sequence from 1 to 2^63 - 1, a timestamp of at most 2^63 - 1, a session id that is
  -- not blank, a payload of the command's own shape (mode "head" for session.start, a mode of 1 to
  -- 64 characters that is not blank for mode.set, no position for head.recenter). The gateway's validation takes it unchanged.
  pub decode_command-IsContract :
      (decoder : Decoder F) (raw : Text) (c : CommandEnvelope F)
      → decode_command fl decoder raw ≡ ok c
      → IsContract c × (validate_command_envelope fl (envelope_object c) ≡ ok c)
  unfolding decode_command
  decode_command-IsContract decoder raw c h =
      let h1 = guard-ok (ltb max_input_characters (length raw)) wire_error _ h in
      let hu = then-ok (check_utf8 fl raw) _ h1 in
      let (j, ej, hj) = bind-ok (parse_json fl decoder raw) _ hu in
      decode_envelope-IsContract j c hj
