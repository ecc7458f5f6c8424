-- ===== src/Adapter/Stamps.antt =====
-- robot/vr_gateway/gateway.py: the times, sessions and sequences of the events, which the encoders of
-- robot/vr_gateway/wire.py check.
use valera_control_tower.Base.{
  pos, ℕ, ◌≡◌, refl, arith, Bool, true, false, Option, none, some, [], ◌∷◌, Text, strips_to_empty,
  isspace, is_space_code, is_empty, leb, ok, text_eq_refl,
}
use valera_control_tower.Messages.{
  GatewayState, RejectionCode, StopReason, gateway_state, neck_target, safety_stop,
  command_rejected, OutputEvent, state_event, neck_event, stop_event, rejected_event,
  CommandEnvelope, schema_version_text,
}
use valera_control_tower.Wire.{max_int64}
use valera_control_tower.Wire.Decode.{check_session_id, check_int_field}
use valera_control_tower.Wire.Accepted.{IsContract}
use valera_control_tower.Wire.Encode.{
  validate_correlation, check_sequence, check_header, check_nonblank, is_event,
}
use valera_control_tower.Gateway.{
  gateway_state_event, safety_stop_event, command_rejected_event, rejection_message,
}

-- A session and a sequence that the encoders take.
abbrev pub Correlates : Option Text → Option ℕ → Type 0
Correlates s n = validate_correlation s n false ≡ ok tt

-- An event passes the checks of its encoder on everything but its floats.
abbrev pub IsStamped : {F : Type 0} → OutputEvent F → Type 0
IsStamped (state_event e) =
    (check_header e.gateway_monotonic_ns e.schema_version e.event_type gateway_state ≡ ok tt)
    × Correlates e.session_id e.sequence
IsStamped (neck_event e) =
    (check_header e.gateway_monotonic_ns e.schema_version e.event_type neck_target ≡ ok tt)
    × (validate_correlation (some e.session_id) (some e.sequence) true ≡ ok tt)
IsStamped (stop_event e) =
    (check_header e.gateway_monotonic_ns e.schema_version e.event_type safety_stop ≡ ok tt)
    × Correlates e.session_id e.sequence
    × (check_nonblank e.neck_action ≡ ok tt)
    × (check_nonblank e.base_action ≡ ok tt)
    × (check_nonblank e.arm_action ≡ ok tt)
IsStamped (rejected_event e) =
    (check_header e.gateway_monotonic_ns e.schema_version e.event_type command_rejected ≡ ok tt)
    × (check_nonblank e.message ≡ ok tt)
    × Correlates e.session_id e.sequence

strips-isspace : (s : Text) → strips_to_empty s ≡ false → isspace s ≡ false
unfolding strips_to_empty isspace
strips-isspace [] h = refl
strips-isspace (c ∷ s) h = h

strips-is_empty : (s : Text) → strips_to_empty s ≡ false → is_empty s ≡ false
unfolding strips_to_empty
strips-is_empty [] h = cc
strips-is_empty (c ∷ s) h = refl

-- The session and the sequence of a command of the wire contract.
pub IsContract-Correlates :
    {F : Type 0} (c : CommandEnvelope F)
    → IsContract c
    → Correlates (some c.session_id) (some c.sequence)
      × (validate_correlation (some c.session_id) (some c.sequence) true ≡ ok tt)
unfolding validate_correlation check_sequence check_session_id
IsContract-Correlates c k =
    rw
      (
        k.session_nonblank,
        strips-isspace c.session_id k.session_nonblank,
        strips-is_empty c.session_id k.session_nonblank,
      )
      (ground (arith, k.sequence_min, k.sequence_max))

pub none-Correlates : Correlates none none
unfolding validate_correlation
none-Correlates = refl

header_time : (now : ℕ) → leb now max_int64 ≡ true → check_int_field 0 (pos now) ≡ ok now
unfolding check_int_field
header_time now h = ground arith

message_nonblank : (code : RejectionCode) → check_nonblank (rejection_message code) ≡ ok tt
unfolding check_nonblank isspace rejection_message is_space_code
message_nonblank code = ground arith

module _ (F : Type 0) (now : ℕ) (in_time : leb now max_int64 ≡ true) where
  pub state-IsStamped :
      (state : GatewayState) (s : Option Text) (n : Option ℕ)
      → Correlates s n
      → IsStamped {F = F} (state_event (gateway_state_event now state s n))
  unfolding check_header is_event
  state-IsStamped state s n k =
      (rw (header_time now in_time, text_eq_refl schema_version_text) refl, k)

  pub stop-IsStamped :
      (reason : StopReason) (s : Option Text) (n : Option ℕ)
      → Correlates s n
      → IsStamped {F = F} (stop_event (safety_stop_event now reason s n))
  unfolding check_header is_event check_nonblank isspace is_space_code
  stop-IsStamped reason s n k =
      (rw (header_time now in_time, text_eq_refl schema_version_text) refl, k, refl, refl, refl)

  pub rejected-IsStamped :
      (code : RejectionCode) (s : Option Text) (n : Option ℕ)
      → Correlates s n
      → IsStamped {F = F} (rejected_event (command_rejected_event now code s n))
  unfolding check_header is_event
  rejected-IsStamped code s n k = (
    rw (header_time now in_time, text_eq_refl schema_version_text) refl,
    message_nonblank code,
    k,
  )

  pub neck-IsStamped :
      (s : Text) (n : ℕ) (pan tilt : F) (hold : Bool)
      → validate_correlation (some s) (some n) true ≡ ok tt
      → IsStamped (
          neck_event (record {
            gateway_monotonic_ns = now;
            session_id = s;
            sequence = n;
            pan_degrees = pan;
            tilt_degrees = tilt;
            hold = hold;
            schema_version = schema_version_text;
            event_type = neck_target;
          }))
  unfolding check_header is_event
  neck-IsStamped s n pan tilt hold k =
      (rw (header_time now in_time, text_eq_refl schema_version_text) refl, k)
