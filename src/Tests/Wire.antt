-- ===== src/Tests/Wire.antt =====
-- robot/vr_gateway/wire.py at concrete inputs. The decoder gives one document for any text.
use valera_control_tower.Base.{
  All, ◌∷◌, ◌≡◌, refl, false, Text, text, length, leb, if◌then◌else◌, ℤ, pos, ok, raised,
  wire_error, text_eq, member, strips_to_empty, isspace, is_space_code,
}
use valera_control_tower.Messages.{
  CommandName, empty_payload, CommandEnvelope, session_start_payload, session_start,
}
use valera_control_tower.Messages.Validation.{
  validate_command_envelope, envelope_post_init, require_text, require_command,
  require_nonempty_string, require_int, validate_payload,
}
use valera_control_tower.Wire.{Json, null, integer, string, object, field, end, max_json_depth}
use valera_control_tower.Wire.Scan.{
  scan, scan_char, check_nesting_depth, check_nesting_depth-nested, brackets, nested,
}
use valera_control_tower.Wire.Document.{
  check_depth, reject_surrogates, has_surrogate, is_surrogate, same_keys, has_keys, has_key,
  only_keys, get_field, check_depth-height_root, height, passes,
}
use valera_control_tower.Wire.Decode.{
  utf8_length, leading_space, text_field, command_field, command_by_name, session_id_field,
  check_session_id, int_field, check_int_field, Decoder, envelope_object,
}
use valera_control_tower.Wire.Command.{
  decode_command, check_utf8, parse_json, decode_envelope, decode_payload, decode_session_start,
  decode_empty_payload,
}
use valera_control_tower.Wire.Accepted.{IsContract}
use valera_control_tower.Wire.Envelope.{decode_command-IsContract}
use valera_control_tower.Wire.Estop.{decode_command-run-IsLatched}
use valera_control_tower.Gateway.Trace.{handles, run}
use valera_control_tower.Gateway.Latch.{IsLatched, IsStill}
use valera_control_tower.Tests.Gateway.{active, session}
use valera_control_tower.Tests.Floats.{whole}

abbrev pub raw_command : Text
raw_command = text " {\"command\":{}}"

abbrev pub start_payload : Json ℤ
start_payload = object (field (text "requested_mode") (string (text "head")) end)

abbrev pub document : ℤ → Json ℤ → Json ℤ
document sequence payload = object (
    field (text "schema_version") (string (text "0.1")) (
      field (text "command") (string (text "session.start")) (
        field (text "session_id") (string (text "s1")) (
          field (text "sequence") (integer sequence)
            (field (text "timestamp_ms") (integer (pos 5)) (field (text "payload") payload end))))))

abbrev pub gives : Json ℤ → Decoder ℤ
gives j pairs_hook constant_hook raw start = ok (j, length raw)

abbrev started : CommandEnvelope ℤ
started = record {
  schema_version = text "0.1";
  command = session_start;
  session_id = text "s1";
  sequence = 7;
  timestamp_ms = 5;
  payload = session_start_payload (text "head");
}

decode_started :
    decode_command whole (gives (document (pos 7) start_payload)) raw_command ≡ ok started
unfolding decode_command check_utf8 utf8_length is_surrogate parse_json check_nesting_depth scan
    scan_char leading_space strips_to_empty is_space_code check_depth reject_surrogates
    has_surrogate decode_envelope same_keys has_keys has_key only_keys member text_eq get_field
    text_field command_field command_by_name session_id_field check_session_id isspace int_field
    check_int_field decode_payload decode_session_start envelope_post_init require_text
    require_command require_nonempty_string require_int validate_payload
decode_started = refl

pub sequence_of_zero :
    decode_command whole (gives (document (pos 0) start_payload)) raw_command ≡ raised wire_error
unfolding decode_command check_utf8 utf8_length is_surrogate parse_json check_nesting_depth scan
    scan_char leading_space strips_to_empty is_space_code check_depth reject_surrogates
    has_surrogate decode_envelope same_keys has_keys has_key only_keys member text_eq get_field
    text_field command_field command_by_name session_id_field check_session_id isspace int_field
    check_int_field decode_payload decode_session_start envelope_post_init require_text
    require_command require_nonempty_string require_int validate_payload
sequence_of_zero = refl

payload_of_null :
    decode_command whole (gives (document (pos 7) null)) raw_command ≡ raised wire_error
unfolding decode_command check_utf8 utf8_length is_surrogate parse_json check_nesting_depth scan
    scan_char leading_space strips_to_empty is_space_code check_depth reject_surrogates
    has_surrogate decode_envelope same_keys has_keys has_key only_keys member text_eq get_field
    text_field command_field command_by_name session_id_field check_session_id isspace int_field
    check_int_field decode_payload decode_session_start envelope_post_init require_text
    require_command require_nonempty_string require_int validate_payload
payload_of_null = refl

decode_command-IsContract_example :
    IsContract started × (validate_command_envelope whole (envelope_object started) ≡ ok started)
decode_command-IsContract_example =
    decode_command-IsContract whole (gives (document (pos 7) start_payload)) raw_command started
      decode_started

check_nesting_depth-nested_example :
    check_nesting_depth (text "{\"a]\":[1]}")
    ≡ (if nested 0 (brackets false false (text "{\"a]\":[1]}")) then ok tt else raised wire_error)
check_nesting_depth-nested_example = check_nesting_depth-nested (text "{\"a]\":[1]}")

check_depth-height_root_example :
    passes (check_depth (document (pos 7) start_payload) 1)
    ≡ leb (height (document (pos 7) start_payload)) max_json_depth
check_depth-height_root_example = check_depth-height_root (document (pos 7) start_payload)

abbrev stop_document : Json ℤ
stop_document = object (
    field (text "schema_version") (string (text "0.1")) (
      field (text "command") (string (text "emergency_stop")) (
        field (text "session_id") (string (text "s1")) (
          field (text "sequence") (integer (pos 9)) (
            field (text "timestamp_ms") (integer (pos 5))
              (field (text "payload") (object end) end))))))

abbrev stopping : CommandEnvelope ℤ
stopping = record {
  schema_version = text "0.1";
  command = CommandName.emergency_stop;
  session_id = text "s1";
  sequence = 9;
  timestamp_ms = 5;
  payload = empty_payload;
}

decode_stopping : decode_command whole (gives stop_document) raw_command ≡ ok stopping
unfolding decode_command check_utf8 utf8_length is_surrogate parse_json check_nesting_depth scan
    scan_char leading_space strips_to_empty is_space_code check_depth reject_surrogates
    has_surrogate decode_envelope same_keys has_keys has_key only_keys member text_eq get_field
    text_field command_field command_by_name session_id_field check_session_id isspace int_field
    check_int_field decode_payload decode_empty_payload envelope_post_init require_text
    require_command require_nonempty_string require_int validate_payload
decode_stopping = refl

decode_command-run-IsLatched_example :
    IsLatched (run whole active (handles (envelope_object stopping) 1_200_000_000 ∷ session)).0
    × All IsStill (run whole active (handles (envelope_object stopping) 1_200_000_000 ∷ session)).1
decode_command-run-IsLatched_example =
    decode_command-run-IsLatched whole (gives stop_document) raw_command stopping active
      1_200_000_000 session decode_stopping refl
