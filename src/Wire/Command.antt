-- ===== src/Wire/Command.antt =====
-- robot/vr_gateway/wire.py: the payloads of the commands, and `decode_command` as a whole.
use valera_control_tower.Base.{
  true, false, not, Option, none, some, Text, text, strips_to_empty, length, ltb, Result, ok,
  raised, ◌>>=◌, ◌>>◌, raise_if, raise_from, wire_error, pos,
}
use valera_control_tower.Base.Float.{FloatOps}
use valera_control_tower.Messages.{
  CommandName, Position, session_start, session_stop, mode_set, head_pose, head_recenter, Payload,
  empty_payload, session_start_payload, mode_set_payload, CommandEnvelope, schema_version_text,
  quest_local_frame,
}
use valera_control_tower.Messages.Validation.{
  str_value, int_value, command_value, require_nonempty_string, envelope_post_init,
}
use valera_control_tower.Wire.{
  Json, object, Fields, end, field, max_input_characters, max_input_utf8_bytes, envelope_keys,
  head_pose_keys, head_recenter_keys, session_start_keys, mode_set_keys, pose_required_keys,
}
use valera_control_tower.Wire.Scan.{check_nesting_depth}
use valera_control_tower.Wire.Document.{
  check_depth, reject_surrogates, reject_duplicate_keys, reject_constant, get_field, has_key,
  has_keys, only_keys, same_keys,
}
use valera_control_tower.Wire.Decode.{
  Decoder, utf8_length, drop_text, leading_space, is_decode_failure, is_validation_error, int_field,
  session_id_field, text_field, command_field, mode_field, payload_object, decode_quaternion,
  decode_position_optional, pose,
}

-- `_decode_empty_payload`
unfoldable pub decode_empty_payload : {F : Type 0} → Fields F → Result (Payload F)
decode_empty_payload end = ok empty_payload
decode_empty_payload (field k x fs) = raised wire_error

-- `_decode_session_start`
unfoldable pub decode_session_start : {F : Type 0} → Fields F → Result (Payload F)
decode_session_start {F} fs = do
  raise_if (not (same_keys session_start_keys fs)) wire_error
  requested ← get_field (text "requested_mode") fs >>= text_field (text "head")
  mode ←
      raise_from is_validation_error wire_error
        (require_nonempty_string {F = F} (str_value requested))
  ok (session_start_payload mode)

-- `_decode_mode_set`
unfoldable pub decode_mode_set : {F : Type 0} → Fields F → Result (Payload F)
decode_mode_set {F} fs = do
  raise_if (not (same_keys mode_set_keys fs)) wire_error
  requested ← get_field (text "mode") fs >>= mode_field
  mode ←
      raise_from is_validation_error wire_error
        (require_nonempty_string {F = F} (str_value requested))
  ok (mode_set_payload mode)

module _ (fl : FloatOps) where
  open fl use {F}

  -- `_decode_position_optional(payload["position"])` where the key is there.
  unfoldable pub optional_position : Fields F → Result (Option (Position F))
  optional_position fs = elim (has_key (text "position") fs) [
    | true ↦ get_field (text "position") fs >>= decode_position_optional fl
    | false ↦ ok none
  ]

  -- `_decode_head_pose`
  unfoldable pub decode_head_pose : Fields F → Result (Payload F)
  decode_head_pose fs = do
    raise_if (not (has_keys pose_required_keys fs)) wire_error
    raise_if (not (only_keys head_pose_keys fs)) wire_error
    frame ← get_field (text "frame") fs >>= text_field quest_local_frame
    orientation ← get_field (text "orientation") fs >>= decode_quaternion fl
    position ← optional_position fs
    pose fl frame orientation position

  -- `_decode_head_recenter`
  unfoldable pub decode_head_recenter : Fields F → Result (Payload F)
  decode_head_recenter fs = do
    raise_if (not (same_keys head_recenter_keys fs)) wire_error
    frame ← get_field (text "frame") fs >>= text_field quest_local_frame
    orientation ← get_field (text "orientation") fs >>= decode_quaternion fl
    pose fl frame orientation none

  -- `_decode_payload`
  unfoldable pub decode_payload : CommandName → Json F → Result (Payload F)
  decode_payload session_start (object fs) = decode_session_start fs
  decode_payload session_stop (object fs) = decode_empty_payload fs
  decode_payload mode_set (object fs) = decode_mode_set fs
  decode_payload CommandName.emergency_stop (object fs) = decode_empty_payload fs
  decode_payload head_pose (object fs) = decode_head_pose fs
  decode_payload head_recenter (object fs) = decode_head_recenter fs
  decode_payload _ _ = raised wire_error

  -- `_parse_json`, with the decoder of the standard library.
  unfoldable pub parse_json : Decoder F → Text → Result (Json F)
  parse_json decoder raw = do
    check_nesting_depth raw
    decoded ←
        raise_from is_decode_failure wire_error
          (decoder reject_duplicate_keys reject_constant raw (leading_space raw))
    raise_if (not (strips_to_empty (drop_text decoded.1 raw))) wire_error
    check_depth decoded.0 1
    reject_surrogates decoded.0
    ok decoded.0

  -- `decode_command` from the parsed document on: the fields are checked in the source's order.
  unfoldable pub decode_envelope : Json F → Result (CommandEnvelope F)
  decode_envelope (object fs) = do
    raise_if (not (same_keys envelope_keys fs)) wire_error
    schema ← get_field (text "schema_version") fs >>= text_field schema_version_text
    command ← get_field (text "command") fs >>= command_field
    session ← get_field (text "session_id") fs >>= session_id_field
    sequence ← get_field (text "sequence") fs >>= int_field 1
    timestamp ← get_field (text "timestamp_ms") fs >>= int_field 0
    payload ← get_field (text "payload") fs >>= decode_payload command
    raise_from is_validation_error wire_error (
        envelope_post_init fl (str_value schema_version_text) (command_value command)
          (str_value session) (int_value (pos sequence)) (int_value (pos timestamp))
          (payload_object payload))
  decode_envelope _ = raised wire_error

  -- The UTF-8 size of the input, which a surrogate does not have.
  unfoldable pub check_utf8 : Text → Result (Unit {0})
  check_utf8 raw = elim (utf8_length raw) [
    | none ↦ raised wire_error
    | some n ↦ raise_if (ltb max_input_utf8_bytes n) wire_error
  ]

  -- `decode_command`
  unfoldable pub decode_command : Decoder F → Text → Result (CommandEnvelope F)
  decode_command decoder raw = do
    raise_if (ltb max_input_characters (length raw)) wire_error
    check_utf8 raw
    document ← parse_json decoder raw
    decode_envelope document
