-- ===== src/Wire/Decode.antt =====
-- robot/vr_gateway/wire.py: `decode_command`. The JSON decoder of the standard library is a
-- parameter: it is given the two hooks, the text and where to start, and gives a document and
-- where it ends, or raises.
use valera_control_tower.Base.{
  ℕ, zero, suc, ◌+◌, Bool, true, false, ◌||◌, not, Option, none, some, [], ◌∷◌, Text, text, text_eq,
  is_empty, isspace, strips_to_empty, length, ltb, ◌==◌, if◌then◌else◌, ℤ, pos, negsuc, Result, ok,
  raised, Exception, ◌>>=◌, ◌>>◌, raise_if, raise_from, wire_error, overflow_error,
  message_validation_error, json_decode_error, recursion_error,
}
use valera_control_tower.Base.Float.{FloatOps}
use valera_control_tower.Messages.{
  CommandName, session_start, session_stop, mode_set, head_pose, head_recenter, Quaternion,
  Position, Payload, session_start_payload, mode_set_payload, pose_payload, empty_payload,
  CommandEnvelope,
}
use valera_control_tower.Messages.Validation.{
  Value, none_value, int_value, float_value, str_value, command_value, quaternion_value,
  position_value, session_start_value, mode_set_value, pose_value, empty_value, envelope_value,
  quaternion, validate_position, validate_pose,
}
use valera_control_tower.Wire.{
  Json, null, integer, number, string, object, Fields, max_int64, max_mode_length, quaternion_keys,
  position_keys,
}
use valera_control_tower.Wire.Document.{get_field, same_keys, is_surrogate}

abbrev pub Decoder : Type 0 → Type 0
Decoder F = (Fields F → Result (Json F)) → (Text → Result (Json F)) → Text → ℕ → Result (Json F × ℕ)

-- The bytes of a text in UTF-8; a surrogate has none.
abbrev utf8_size : ℕ → Option ℕ
utf8_size c =
    if is_surrogate c
    then none
    else some (if ltb c 0x80 then 1 else if ltb c 0x800 then 2 else if ltb c 0x10000 then 3 else 4)

unfoldable pub utf8_length : Text → Option ℕ
unfolding is_surrogate
utf8_length [] = some 0
utf8_length (c ∷ s) = elim (utf8_length s) [
  | none ↦ none
  | some n ↦ elim (utf8_size c) [ none ↦ none | some k ↦ some (k + n) ]
]

abbrev is_json_space : ℕ → Bool
is_json_space c = c == b' ' || c == 9 || c == 10 || c == 13

-- `raw[end:]`
abbrev pub drop_text : ℕ → Text → Text
drop_text zero s = s
drop_text (suc n) [] = []
drop_text (suc n) (c ∷ s) = drop_text n s

-- The loop that skips the leading whitespace.
unfoldable pub leading_space : Text → ℕ
leading_space [] = 0
leading_space (c ∷ s) = let rest = leading_space s in if is_json_space c then suc rest else 0

abbrev pub is_decode_failure : Exception → Bool
is_decode_failure json_decode_error = true
is_decode_failure recursion_error = true
is_decode_failure _ = false

abbrev pub is_validation_error : Exception → Bool
is_validation_error message_validation_error = true
is_validation_error _ = false

-- `_COMMAND_BY_NAME`
unfoldable pub command_by_name : Text → Option CommandName
command_by_name name =
    if text_eq name (text "session.start")
    then some session_start
    else if text_eq name (text "session.stop")
    then some session_stop
    else if text_eq name (text "mode.set")
    then some mode_set
    else if text_eq name (text "head.pose")
    then some head_pose
    else if text_eq name (text "head.recenter")
    then some head_recenter
    else if text_eq name (text "emergency_stop")
    then some CommandName.emergency_stop
    else none

-- `_validate_int_field` of an integer that is no bool.
unfoldable pub check_int_field : ℕ → ℤ → Result ℕ
check_int_field minimum (negsuc n) = raised wire_error
check_int_field minimum (pos n) = do
  raise_if (ltb n minimum) wire_error
  raise_if (ltb max_int64 n) wire_error
  ok n

-- `_validate_session_id` of a string.
unfoldable pub check_session_id : Text → Result Text
check_session_id s = do
  raise_if (is_empty s) wire_error
  raise_if (isspace s || strips_to_empty s) wire_error
  ok s

module _ {F : Type 0} where
  unfoldable pub int_field : ℕ → Json F → Result ℕ
  unfolding check_int_field
  int_field minimum (integer i) = check_int_field minimum i
  int_field minimum _ = raised wire_error

  unfoldable pub session_id_field : Json F → Result Text
  unfolding check_session_id
  session_id_field (string s) = check_session_id s
  session_id_field _ = raised wire_error

  -- `type(value) is not str or value != expected`
  unfoldable pub text_field : Text → Json F → Result Text
  text_field expected (string s) = if text_eq s expected then ok s else raised wire_error
  text_field expected _ = raised wire_error

  unfoldable pub command_field : Json F → Result CommandName
  unfolding command_by_name
  command_field (string s) = elim (command_by_name s) [ some c ↦ ok c | none ↦ raised wire_error ]
  command_field _ = raised wire_error

  unfoldable pub mode_field : Json F → Result Text
  mode_field (string s) = do
    raise_if (is_empty s || isspace s) wire_error
    raise_if (ltb max_mode_length (length s)) wire_error
    ok s
  mode_field _ = raised wire_error

  -- The objects that the constructors of the payloads make of validated values.
  abbrev pub quaternion_object : Quaternion F → Value F
  quaternion_object q =
      quaternion_value (float_value q.x) (float_value q.y) (float_value q.z) (float_value q.w)

  abbrev pub position_object : Option (Position F) → Value F
  position_object none = none_value
  position_object (some p) = position_value (float_value p.x) (float_value p.y) (float_value p.z)

  abbrev pub payload_object : Payload F → Value F
  payload_object (session_start_payload mode) = session_start_value (str_value mode)
  payload_object (mode_set_payload mode) = mode_set_value (str_value mode)
  payload_object (pose_payload p) =
      pose_value (str_value p.frame) (quaternion_object p.orientation) (position_object p.position)
  payload_object empty_payload = empty_value

  -- The envelope as the object that is handed to the gateway.
  abbrev pub envelope_object : CommandEnvelope F → Value F
  envelope_object c =
      envelope_value (str_value c.schema_version) (command_value c.command) (str_value c.session_id)
        (int_value (pos c.sequence)) (int_value (pos c.timestamp_ms)) (payload_object c.payload)

module _ (fl : FloatOps) where
  open fl use {F, isfinite, of_int}

  -- A component of a quaternion or a position: `isfinite` of an int may raise OverflowError.
  unfoldable pub component : Json F → Result (Value F)
  component (integer i) = elim (of_int i) [
    | none ↦ raised overflow_error
    | some v ↦ if isfinite v then ok (int_value i) else raised wire_error
  ]
  component (number v) = if isfinite v then ok (float_value v) else raised wire_error
  component _ = raised wire_error

  -- `_decode_quaternion`
  unfoldable pub decode_quaternion : Json F → Result (Quaternion F)
  decode_quaternion (object fs) = do
    raise_if (not (same_keys quaternion_keys fs)) wire_error
    x ← get_field (text "x") fs >>= component
    y ← get_field (text "y") fs >>= component
    z ← get_field (text "z") fs >>= component
    w ← get_field (text "w") fs >>= component
    raise_from is_validation_error wire_error (quaternion fl x y z w)
  decode_quaternion _ = raised wire_error

  -- `_decode_position_optional`
  unfoldable pub decode_position_optional : Json F → Result (Option (Position F))
  decode_position_optional null = ok none
  decode_position_optional (object fs) = do
    raise_if (not (same_keys position_keys fs)) wire_error
    x ← get_field (text "x") fs >>= component
    y ← get_field (text "y") fs >>= component
    z ← get_field (text "z") fs >>= component
    p ← raise_from is_validation_error wire_error (validate_position fl x y z)
    ok (some p)
  decode_position_optional _ = raised wire_error

  abbrev pub pose : Text → Quaternion F → Option (Position F) → Result (Payload F)
  pose frame orientation position =
      raise_from is_validation_error wire_error (
        validate_pose fl (str_value frame) (quaternion_object orientation)
          (position_object position))
      >>= λ p. ok (pose_payload p)
