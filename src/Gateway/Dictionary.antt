-- ===== src/Gateway/Dictionary.antt =====
-- robot/vr_gateway/simulation.py and wire.py: the two dictionaries of an event.
use valera_control_tower.Base.{
  ℕ, ◌≡◌, refl, sym, ap, ◌∙◌, arith, Bool, true, false, ◌&&◌, ◌||◌, not, Option, none, some, List,
  [], ◌∷◌, Text, text, text_eq, text_eq_iff, member, All, Bool-cases, inl, inr, pos, Result, ok,
  raise_if, wire_error, bind-ok, then-ok, check-ok, ok-injective, ◌>>◌,
}
use valera_control_tower.Base.Float.{FloatOps}
use valera_control_tower.Messages.{
  EventName, gateway_state, neck_target, safety_stop, command_rejected, GatewayStateEvent,
  NeckTargetEvent, SafetyStopEvent, CommandRejectedEvent, OutputEvent, state_event, neck_event,
  stop_event, rejected_event, schema_version_text,
}
use valera_control_tower.Wire.{Json, object, string, Fields, end, field}
use valera_control_tower.Wire.Decode.{check_int_field}
use valera_control_tower.Wire.Encode.{
  event_to_validated_dict, encode_gateway_state_event, encode_neck_target_event,
  encode_safety_stop_event, encode_command_rejected_event, check_header, is_event, event_value,
  validate_correlation, check_nonblank,
}
use valera_control_tower.OutputCheck.{get}
use valera_control_tower.Gateway.Simulation.{event_to_dictionary}

-- A predicate on each text of a list holds of a member.
listed :
    (P : Text → Type 0) (keys : List Text) (key : Text)
    → All P keys
    → member key keys ≡ true
    → P key
unfolding member
listed P [] key a h = cc
listed P (k ∷ keys) key a h = elim (Bool-cases (text_eq key k)) [
  | inl b ↦ rw ((text_eq_iff key k).0 b) a.0
  | inr b ↦ listed P keys key a.1 (sym (ap (λ t. t || member key keys) b) ∙ h)
]

module _ {F : Type 0} where
  -- Every key of the dictionary is in the list.
  abbrev keys_in : List Text → Fields F → Bool
  keys_in keys end = true
  keys_in keys (field k x fs) = member k keys && keys_in keys fs

  get-none :
      (keys : List Text) (d : Fields F) (key : Text)
      → keys_in keys d ≡ true
      → member key keys ≡ false
      → get key d ≡ none
  unfolding get
  get-none keys end key h n = refl
  get-none keys (field k x fs) key h n =
      let same = (text_eq_iff key k).0 in ground (arith, get-none keys fs key)

  -- The same value under every key, whatever the order of the keys.
  abbrev pub SameEntries : Fields F → Fields F → Type 0
  SameEntries d d' = (key : Text) → get key d ≡ get key d'

  -- A document with the entries of a dictionary, if both have the keys of a list and no others.
  encoded :
      (keys : List Text) (j : Json F) (d d' : Fields F)
      → j ≡ object d
      → keys_in keys d ≡ true
      → keys_in keys d' ≡ true
      → All (λ key. get key d ≡ get key d') keys
      → (e : Fields F) × (j ≡ object e) × SameEntries e d'
  encoded keys j d d' same h h' a = (
    d,
    same,
    λ key. elim (Bool-cases (member key keys)) [
      | inl b ↦ listed (λ k. get k d ≡ get k d') keys key a b
      | inr b ↦ get-none keys d key h b ∙ sym (get-none keys d' key h' b)
    ],
  )

is_event_eq : (a b : EventName) → is_event a b ≡ true → a ≡ b
unfolding is_event
is_event_eq a b h = ground arith

-- What the head of an encoder has tested.
check_header-ok :
    (now : ℕ) (schema : Text) (name expected : EventName)
    → check_header now schema name expected ≡ ok tt
    → (schema ≡ schema_version_text) × (name ≡ expected)
unfolding check_header is_event
check_header-ok now schema name expected h =
    let (n, checked, h1) = bind-ok (check_int_field 0 (pos now)) _ h in
    let schema_tested =
      check-ok (raise_if (not (text_eq schema schema_version_text)) wire_error) _ h1 in
    let h2 = then-ok (raise_if (not (text_eq schema schema_version_text)) wire_error) _ h1 in
    (
      (text_eq_iff schema schema_version_text).0 (passed _ schema_tested),
      is_event_eq name expected (passed _ h2),
    )
  where
    passed : (b : Bool) → raise_if (not b) wire_error ≡ ok tt → b ≡ true
    passed true k = refl
    passed false k = cc

after_header :
    {A : Type 0} (now : ℕ) (schema : Text) (name expected : EventName) (rest : Result A) {a : A}
    → (check_header now schema name expected >> rest) ≡ ok a
    → (schema ≡ schema_version_text) × (name ≡ expected) × (rest ≡ ok a)
after_header now schema name expected rest h =
    let head = check_header now schema name expected in
    let (s, n) = check_header-ok now schema name expected (check-ok head rest h) in
    (s, n, then-ok head rest h)

module _ (fl : FloatOps) where
  open fl use {F}

  -- The event that an encoder takes, and its dictionary.
  abbrev IsEncoded : OutputEvent F → Json F → Type 0
  IsEncoded e j = (d : Fields F) × (j ≡ object d) × SameEntries d (event_to_dictionary e)

  abbrev shown_text : Text → Option (Json F)
  shown_text s = some (string s)

  state_event-IsEncoded :
      (e : GatewayStateEvent) (j : Json F)
      → encode_gateway_state_event e ≡ ok j
      → IsEncoded (state_event e) j
  unfolding encode_gateway_state_event event_to_dictionary member text_eq get event_value
  state_event-IsEncoded e j h =
      let (schema, name, h1) =
        after_header e.gateway_monotonic_ns e.schema_version e.event_type gateway_state _ h in
      let h2 = then-ok (validate_correlation e.session_id e.sequence false) _ h1 in
      encoded
        (text "schema_version"
          ∷ text "event_type"
          ∷ text "gateway_monotonic_ns"
          ∷ text "state"
          ∷ text "session_id"
          ∷ text "sequence"
          ∷ [])
        j _ (event_to_dictionary (state_event e)) (sym (ok-injective h2)) refl refl
        (
          ap shown_text (sym schema),
          (ap (λ n. shown_text (event_value n)) (sym name), (refl, (refl, (refl, (refl, tt))))),
        )

  neck_event-IsEncoded :
      (e : NeckTargetEvent F) (j : Json F)
      → encode_neck_target_event fl e ≡ ok j
      → IsEncoded (neck_event e) j
  unfolding encode_neck_target_event event_to_dictionary member text_eq get event_value
  neck_event-IsEncoded e j h =
      let (schema, name, h1) =
        after_header e.gateway_monotonic_ns e.schema_version e.event_type neck_target _ h in
      let h2 = then-ok (validate_correlation (some e.session_id) (some e.sequence) true) _ h1 in
      let h3 =
        then-ok
          (raise_if (not (fl.isfinite e.pan_degrees) || not (fl.isfinite e.tilt_degrees))
            wire_error)
          _ h2 in
      encoded
        (text "schema_version"
          ∷ text "event_type"
          ∷ text "gateway_monotonic_ns"
          ∷ text "session_id"
          ∷ text "sequence"
          ∷ text "pan_degrees"
          ∷ text "tilt_degrees"
          ∷ text "hold"
          ∷ [])
        j _ (event_to_dictionary (neck_event e)) (sym (ok-injective h3)) refl refl
        (
          ap shown_text (sym schema),
          (
            ap (λ n. shown_text (event_value n)) (sym name),
            (refl, (refl, (refl, (refl, (refl, (refl, tt)))))),
          ),
        )

  stop_event-IsEncoded :
      (e : SafetyStopEvent) (j : Json F)
      → encode_safety_stop_event e ≡ ok j
      → IsEncoded (stop_event e) j
  unfolding encode_safety_stop_event event_to_dictionary member text_eq get event_value
  stop_event-IsEncoded e j h =
      let (schema, name, h1) =
        after_header e.gateway_monotonic_ns e.schema_version e.event_type safety_stop _ h in
      let h2 = then-ok (validate_correlation e.session_id e.sequence false) _ h1 in
      let h3 = then-ok (check_nonblank e.neck_action) _ h2 in
      let h4 = then-ok (check_nonblank e.base_action) _ h3 in
      let h5 = then-ok (check_nonblank e.arm_action) _ h4 in
      encoded
        (text "schema_version"
          ∷ text "event_type"
          ∷ text "gateway_monotonic_ns"
          ∷ text "reason"
          ∷ text "session_id"
          ∷ text "sequence"
          ∷ text "neck_action"
          ∷ text "base_action"
          ∷ text "arm_action"
          ∷ [])
        j _ (event_to_dictionary (stop_event e)) (sym (ok-injective h5)) refl refl
        (
          ap shown_text (sym schema),
          (
            ap (λ n. shown_text (event_value n)) (sym name),
            (refl, (refl, (refl, (refl, (refl, (refl, (refl, tt))))))),
          ),
        )

  rejected_event-IsEncoded :
      (e : CommandRejectedEvent) (j : Json F)
      → encode_command_rejected_event e ≡ ok j
      → IsEncoded (rejected_event e) j
  unfolding encode_command_rejected_event event_to_dictionary member text_eq get event_value
  rejected_event-IsEncoded e j h =
      let (schema, name, h1) =
        after_header e.gateway_monotonic_ns e.schema_version e.event_type command_rejected _ h in
      let h2 = then-ok (check_nonblank e.message) _ h1 in
      let h3 = then-ok (validate_correlation e.session_id e.sequence false) _ h2 in
      encoded
        (text "schema_version"
          ∷ text "event_type"
          ∷ text "gateway_monotonic_ns"
          ∷ text "code"
          ∷ text "message"
          ∷ text "session_id"
          ∷ text "sequence"
          ∷ [])
        j _ (event_to_dictionary (rejected_event e)) (sym (ok-injective h3)) refl refl
        (
          ap shown_text (sym schema),
          (
            ap (λ n. shown_text (event_value n)) (sym name),
            (refl, (refl, (refl, (refl, (refl, tt))))),
          ),
        )

-- The document that the wire's encoder makes of an event has, under every key, the same value as the
-- dictionary that the simulation makes of the event, or both have none.
pub event_to_validated_dict-event_to_dictionary :
    (fl : FloatOps) (e : OutputEvent fl.F) (j : Json fl.F)
    → event_to_validated_dict fl e ≡ ok j
    → (d : Fields fl.F) × (j ≡ object d) × SameEntries d (event_to_dictionary e)
unfolding event_to_validated_dict
event_to_validated_dict-event_to_dictionary fl (state_event e) j h = state_event-IsEncoded fl e j h
event_to_validated_dict-event_to_dictionary fl (neck_event e) j h = neck_event-IsEncoded fl e j h
event_to_validated_dict-event_to_dictionary fl (stop_event e) j h = stop_event-IsEncoded fl e j h
event_to_validated_dict-event_to_dictionary fl (rejected_event e) j h =
    rejected_event-IsEncoded fl e j h
