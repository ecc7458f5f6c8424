-- ===== src/Messages/Validation.antt =====
-- robot/vr_gateway/messages.py: validation at construction and again at the gateway's boundary.
use valera_control_tower.Base.{
  ℕ, Bool, Option, none, some, [], ◌∷◌, Text, text_eq, is_empty, not, ℤ, pos, Result, ok, raised,
  ◌>>=◌, ◌>>◌, raise_if, message_validation_error, attribute_error, overflow_error,
  zero_division_error, leb, if◌then◌else◌,
}
use valera_control_tower.Base.Float.{FloatOps}
use valera_control_tower.Messages.{
  CommandName, Quaternion, Position, PosePayload, Payload, session_start_payload, mode_set_payload,
  pose_payload, empty_payload, CommandEnvelope, schema_version_text, quest_local_frame,
}

-- An unvalidated Python object, with the attributes that the code reads. `missing` stands where
-- an object lacks an attribute; `other_value` is an object of any other class.
pub data Value (F : Type 0) : Type 0 where
  missing none_value other_value empty_value : Value F
  bool_value : Bool → Value F
  int_value : ℤ → Value F
  float_value : F → Value F
  str_value : Text → Value F
  command_value : CommandName → Value F
  quaternion_value : Value F → Value F → Value F → Value F → Value F
  position_value : Value F → Value F → Value F → Value F
  session_start_value : Value F → Value F
  mode_set_value : Value F → Value F
  pose_value : Value F → Value F → Value F → Value F
  envelope_value : Value F → Value F → Value F → Value F → Value F → Value F → Value F

-- Reading an attribute.
unfoldable pub attribute : {F : Type 0} → Value F → Result (Unit {0})
attribute missing = raised attribute_error
attribute _ = ok tt

-- `type(value) is str and value == expected`
unfoldable pub require_text : {F : Type 0} → Text → Value F → Result Text
require_text expected missing = raised attribute_error
require_text expected (str_value s) =
    if text_eq s expected then ok s else raised message_validation_error
require_text expected _ = raised message_validation_error

unfoldable pub require_nonempty_string : {F : Type 0} → Value F → Result Text
require_nonempty_string missing = raised attribute_error
require_nonempty_string (str_value s) = if is_empty s then raised message_validation_error else ok s
require_nonempty_string _ = raised message_validation_error

-- `type(value) is int and value >= minimum`; a bool is not an int here.
unfoldable pub require_int : {F : Type 0} → ℕ → Value F → Result ℕ
require_int minimum missing = raised attribute_error
require_int minimum (int_value (pos n)) =
    if leb minimum n then ok n else raised message_validation_error
require_int minimum _ = raised message_validation_error

unfoldable pub require_command : {F : Type 0} → Value F → Result CommandName
require_command missing = raised attribute_error
require_command (command_value c) = ok c
require_command _ = raised message_validation_error

module _ (fl : FloatOps) where
  open fl use {F, isfinite, of_int, hypot, lef, tiny, div}

  unfoldable pub finite_float : F → Result F
  finite_float v = if isfinite v then ok v else raised message_validation_error

  -- `isfinite` of an int converts it, and raises OverflowError where no float is near.
  unfoldable pub finite_json_number : Value F → Result F
  unfolding finite_float
  finite_json_number (int_value i) = elim (of_int i) [
    | none ↦ raised overflow_error
    | some v ↦ finite_float v
  ]
  finite_json_number (float_value v) = finite_float v
  finite_json_number _ = raised message_validation_error

  unfoldable pub norm : Quaternion F → F
  norm q = hypot (q.x ∷ q.y ∷ q.z ∷ q.w ∷ [])

  unfoldable pub check_norm : Quaternion F → Result (Quaternion F)
  unfolding norm
  check_norm q = do
    raise_if (not (isfinite (norm q))) message_validation_error
    raise_if (lef (norm q) tiny) message_validation_error
    ok q

  -- `_validate_quaternion`: the attributes are read before any is checked.
  unfoldable pub validate_quaternion : Value F → Value F → Value F → Value F → Result (Quaternion F)
  unfolding attribute finite_json_number check_norm
  validate_quaternion vx vy vz vw = do
    attribute vx
    attribute vy
    attribute vz
    attribute vw
    a ← finite_json_number vx
    b ← finite_json_number vy
    c ← finite_json_number vz
    d ← finite_json_number vw
    check_norm (record { x = a; y = b; z = c; w = d })

  -- The constructor `Quaternion(x, y, z, w)`.
  unfoldable pub quaternion : Value F → Value F → Value F → Value F → Result (Quaternion F)
  unfolding validate_quaternion
  quaternion vx vy vz vw = do
    a ← finite_json_number vx
    b ← finite_json_number vy
    c ← finite_json_number vz
    d ← finite_json_number vw
    validate_quaternion (float_value a) (float_value b) (float_value c) (float_value d)

  -- `a / b`
  unfoldable pub quotient : F → F → Result F
  quotient a b = elim (div a b) [ none ↦ raised zero_division_error | some u ↦ ok u ]

  -- `Quaternion.normalized`
  unfoldable pub normalized : Quaternion F → Result (Quaternion F)
  unfolding quotient quaternion
  normalized q = do
    a ← quotient q.x (norm q)
    b ← quotient q.y (norm q)
    c ← quotient q.z (norm q)
    d ← quotient q.w (norm q)
    quaternion (float_value a) (float_value b) (float_value c) (float_value d)

  -- `_validate_position`, and the constructor `Position(x, y, z)`, which makes the same checks.
  unfoldable pub validate_position : Value F → Value F → Value F → Result (Position F)
  unfolding attribute finite_json_number
  validate_position vx vy vz = do
    attribute vx
    attribute vy
    attribute vz
    a ← finite_json_number vx
    b ← finite_json_number vy
    c ← finite_json_number vz
    ok (record { x = a; y = b; z = c })

  -- `PosePayload.__post_init__`
  unfoldable pub validate_orientation : Value F → Result (Quaternion F)
  unfolding validate_quaternion
  validate_orientation missing = raised attribute_error
  validate_orientation (quaternion_value a b c d) = validate_quaternion a b c d
  validate_orientation _ = raised message_validation_error

  -- A position that is missing is the default of the class, None.
  unfoldable pub validate_optional_position : Value F → Result (Option (Position F))
  unfolding validate_position
  validate_optional_position missing = ok none
  validate_optional_position none_value = ok none
  validate_optional_position (position_value a b c) = do p ← validate_position a b c; ok (some p)
  validate_optional_position _ = raised message_validation_error

  unfoldable pub validate_pose : Value F → Value F → Value F → Result (PosePayload F)
  unfolding require_text validate_orientation validate_optional_position
  validate_pose vframe vorientation vposition = do
    frame ← require_text quest_local_frame vframe
    orientation ← validate_orientation vorientation
    position ← validate_optional_position vposition
    ok (record { frame = frame; orientation = orientation; position = position })

  -- `_validate_payload`
  unfoldable pub validate_payload : Value F → Result (Payload F)
  unfolding require_nonempty_string validate_pose
  validate_payload missing = raised attribute_error
  validate_payload (session_start_value mode) = do
    m ← require_nonempty_string mode
    ok (session_start_payload m)
  validate_payload (mode_set_value mode) = do
    m ← require_nonempty_string mode
    ok (mode_set_payload m)
  validate_payload (pose_value frame orientation position) = do
    p ← validate_pose frame orientation position
    ok (pose_payload p)
  validate_payload empty_value = ok empty_payload
  validate_payload _ = raised message_validation_error

  -- `CommandEnvelope.__post_init__`
  unfoldable pub envelope_post_init :
      Value F → Value F → Value F → Value F → Value F → Value F → Result (CommandEnvelope F)
  unfolding require_text require_command require_nonempty_string require_int validate_payload
  envelope_post_init vschema vcommand vsession vsequence vtimestamp vpayload = do
    schema ← require_text schema_version_text vschema
    command ← require_command vcommand
    session ← require_nonempty_string vsession
    sequence ← require_int 1 vsequence
    timestamp ← require_int 0 vtimestamp
    payload ← validate_payload vpayload
    ok (record {
      schema_version = schema;
      command = command;
      session_id = session;
      sequence = sequence;
      timestamp_ms = timestamp;
      payload = payload;
    })

  unfoldable pub validate_command_envelope : Value F → Result (CommandEnvelope F)
  unfolding envelope_post_init
  validate_command_envelope (envelope_value s c i n t p) = envelope_post_init s c i n t p
  validate_command_envelope _ = raised message_validation_error
