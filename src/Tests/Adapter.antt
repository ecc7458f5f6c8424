-- ===== src/Tests/Adapter.antt =====
-- robot/vr_gateway/adapter.py at a concrete input.
use valera_control_tower.Base.{
  ◌≡◌, refl, none, some, List, [], ◌∷◌, ◌++◌, ok, ℤ, pos, Text, text, length, text_eq, member,
  strips_to_empty, isspace, is_space_code,
}
use valera_control_tower.Messages.{OutputEvent, rejected_event, invalid_payload}
use valera_control_tower.Messages.Validation.{
  validate_command_envelope, normalized, envelope_post_init, require_text, require_command,
  require_nonempty_string, require_int, validate_payload,
}
use valera_control_tower.Wire.Scan.{scan, scan_char, check_nesting_depth}
use valera_control_tower.Wire.Document.{
  check_depth, reject_surrogates, has_surrogate, is_surrogate, same_keys, has_keys, has_key,
  only_keys, get_field,
}
use valera_control_tower.Wire.Decode.{
  utf8_length, leading_space, text_field, command_field, command_by_name, session_id_field,
  check_session_id, int_field, check_int_field,
}
use valera_control_tower.Wire.Command.{
  decode_command, check_utf8, parse_json, decode_envelope, decode_payload, decode_session_start,
}
use valera_control_tower.Gateway.{
  command_rejected_event, vr_gateway, default_config, evaluate_deadline, handshake_expired,
  watchdog_expired, end_handshake, stop_motion,
}
use valera_control_tower.Gateway.Handlers.{
  handle_session_start, start_session, start_rejection, rejection_of, reject, reject_untrusted,
}
use valera_control_tower.Gateway.Handle.{
  handle, handle_valid, after_deadline, route, perform, reject_invalid,
}
use valera_control_tower.Gateway
use valera_control_tower.Adapter
use valera_control_tower.Adapter.{handle_command, parsed}
use valera_control_tower.Adapter.Runs.{
  AdapterCall, command, adapter_step, adapter_run, gateway_events, IsDumps, adapter_run-answers,
}
use valera_control_tower.Adapter.Malformed.{handle_command-poll}
use valera_control_tower.Wire.Encode.{Dumps, encode_events}
use valera_control_tower.Tests.Floats.{whole, whole-IsIeee}
use valera_control_tower.Tests.Neck.{config, neck, config_checked, neck_built}
use valera_control_tower.Tests.Gateway.{active}
use valera_control_tower.Tests.Wire.{gives, document, start_payload, raw_command, sequence_of_zero}

abbrev blank_text : Dumps whole
blank_text j = ok []

-- The command has the sequence 0.
handle_command-poll_example :
    ((handle_command whole
        (gives (document (pos 0) start_payload))
        blank_text
        active
        raw_command
        7).0
      ≡ (Adapter.poll whole blank_text active 7).0)
    × ((handle_command whole
          (gives (document (pos 0) start_payload))
          blank_text
          active
          raw_command
          7).1
        ≡ encode_events whole blank_text (
            (Gateway.poll active 7).1
            ++ rejected_event (command_rejected_event 7 invalid_payload none none) ∷ []))
handle_command-poll_example =
    handle_command-poll whole (gives (document (pos 0) start_payload)) blank_text active raw_command
      7 sequence_of_zero

blank_text-IsDumps : IsDumps whole (gives (document (pos 1) start_payload)) blank_text
blank_text-IsDumps = λ e j h. ([], refl)

-- One command that starts a session, sent twice: the second is rejected.
abbrev calls : List AdapterCall
calls = command raw_command 5 ∷ []

abbrev rejected_again : List (OutputEvent ℤ)
rejected_again =
    rejected_event (command_rejected_event 6 invalid_payload (some (text "s1")) (some 1)) ∷ []

answers :
    gateway_events whole
      (gives (document (pos 1) start_payload))
      blank_text
      (adapter_run whole
        (gives (document (pos 1) start_payload))
        blank_text
        (vr_gateway neck default_config)
        calls)
      (command raw_command 6)
    ≡ ok rejected_again
unfolding gateway_events adapter_run adapter_step handle_command parsed handle handle_valid
    after_deadline route perform reject_invalid handle_session_start start_session start_rejection
    rejection_of reject reject_untrusted evaluate_deadline handshake_expired watchdog_expired
    end_handshake stop_motion validate_command_envelope normalized vr_gateway decode_command
    check_utf8 utf8_length is_surrogate parse_json check_nesting_depth scan scan_char leading_space
    strips_to_empty is_space_code check_depth reject_surrogates has_surrogate decode_envelope
    same_keys has_keys has_key only_keys member text_eq get_field text_field command_field
    command_by_name session_id_field check_session_id isspace int_field check_int_field
    decode_payload decode_session_start envelope_post_init require_text require_command
    require_nonempty_string require_int validate_payload
answers = refl

adapter_run-answers_example :
    (lines : List Text) × ((adapter_step whole
        (gives (document (pos 1) start_payload))
        blank_text
        (adapter_run whole
          (gives (document (pos 1) start_payload))
          blank_text
          (vr_gateway neck default_config)
          calls)
        (command raw_command 6)).1
      ≡ ok lines)
    × (length lines ≡ length rejected_again)
adapter_run-answers_example =
    adapter_run-answers whole whole-IsIeee config config neck default_config
      (gives (document (pos 1) start_payload)) blank_text calls (command raw_command 6)
      rejected_again config_checked neck_built blank_text-IsDumps (refl, tt) refl answers
