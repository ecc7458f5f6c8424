-- ===== src/Adapter/Runs.antt =====
-- robot/vr_gateway/adapter.py: calls of an adapter over a new gateway, and what it answers. `dumps`
-- is `json.dumps`, which gives a text for a document that the encoders have checked.
use mathlib.Core.Path.{subst}
use valera_control_tower.Base.{
  ℕ, ◌≡◌, refl, sym, ap, ◌∙◌, arith, inl, inr, true, List, [], ◌∷◌, All, Text, length, leb, Result,
  ok, raised, Exception, ok-injective, ◌>>=◌, bind-ok, Result-cases,
}
use valera_control_tower.Base.Float.{FloatOps, IsIeee}
use valera_control_tower.Messages.{OutputEvent, state_event, neck_event, stop_event, rejected_event}
use valera_control_tower.Messages.Validation.{Value, other_value, validate_command_envelope}
use valera_control_tower.Neck.{NeckControlConfig, NeckController, check_config, neck_controller}
use valera_control_tower.Neck.Safety.{IsConfigured, neck_controller-IsSafe, neck_controller_config}
use valera_control_tower.Gateway.{VrGateway, GatewayConfig, vr_gateway}
use valera_control_tower.Gateway
use valera_control_tower.Gateway.Handle.{handle}
use valera_control_tower.Gateway.Cases.{handle-Handled}
use valera_control_tower.Gateway.Trace.{polls, step, emitted}
use valera_control_tower.Gateway.Limits.{InLimits, HasNeck, Handled-Respects, step-Respects}
use valera_control_tower.Wire.{Json, max_int64}
use valera_control_tower.Wire.Decode.{Decoder, envelope_object}
use valera_control_tower.Wire.Command.{decode_command}
use valera_control_tower.Wire.Envelope.{decode_command-IsContract}
use valera_control_tower.Wire.Encode.{
  Dumps, encode_gateway_state_event, encode_neck_target_event, encode_safety_stop_event,
  encode_command_rejected_event, event_to_validated_dict, encode_event, encode_events,
}
use valera_control_tower.Adapter.{parsed, handle_command}
use valera_control_tower.Adapter
use valera_control_tower.Adapter.Stamps.{IsStamped, none-Correlates}
use valera_control_tower.Adapter.Stamped.{
  IsSent, IsCorrelated, handle-IsGood, evaluate_deadline-IsGood,
}

-- A call of the adapter, with the reading of the clock.
pub data AdapterCall : Type 0 where
  command : Text → ℕ → AdapterCall
  poll : ℕ → AdapterCall

-- The clock's reading fits the 64 bits of the contract.
abbrev pub InTime : AdapterCall → Type 0
InTime (command raw now) = leb now max_int64 ≡ true
InTime (poll now) = leb now max_int64 ≡ true

module _ (fl : FloatOps) (decoder : Decoder fl.F) (dumps : Dumps fl) where
  open fl use {F}

  -- `VrGatewayAdapter.handle_command` and `poll`.
  unfoldable pub adapter_step : VrGateway F → AdapterCall → VrGateway F × Result (List Text)
  adapter_step g (command raw now) = handle_command fl decoder dumps g raw now
  adapter_step g (poll now) = Adapter.poll fl dumps g now

  -- The gateway after some calls.
  unfoldable pub adapter_run : VrGateway F → List AdapterCall → VrGateway F
  unfolding adapter_step
  adapter_run g [] = g
  adapter_run g (call ∷ calls) = adapter_run (adapter_step g call).0 calls

  -- What the gateway gives the adapter in a call.
  unfoldable pub gateway_events : VrGateway F → AdapterCall → Result (List (OutputEvent F))
  unfolding parsed
  gateway_events g (command raw now) =
      parsed fl (decode_command fl decoder raw) >>= λ x. (handle fl g x now).1
  gateway_events g (poll now) = ok (Gateway.poll g now).1

  -- `json.dumps` of a document that has passed its checks.
  abbrev pub IsDumps : Type 0
  IsDumps =
      (e : OutputEvent F) (j : Json F)
      → event_to_validated_dict fl e ≡ ok j
      → (t : Text) × (dumps j ≡ ok t)

  parsed-IsSent :
      (raw : Text) (x : Value F) → parsed fl (decode_command fl decoder raw) ≡ ok x → IsSent fl x
  unfolding parsed
  parsed-IsSent raw x h = elim (Result-cases (decode_command fl decoder raw)) [
    | inl (c, e) ↦
        let (contract, valid) = decode_command-IsContract fl decoder raw c e in
        let same : envelope_object c ≡ x = ok-injective (sym (ap (parsed fl) e) ∙ h) in
        inr (c, contract, ap (validate_command_envelope fl) (sym same) ∙ valid)
    | inr (y, e) ↦ inl (other_of y (sym (ap (parsed fl) e) ∙ h))
  ]
    where
      other_of : (y : Exception) → parsed fl (raised y) ≡ ok x → x ≡ other_value
      other_of y k = ground arith

module _ (fl : FloatOps) (o : IsIeee fl) (c0 : NeckControlConfig fl.F)
    (configured : IsConfigured fl c0) where
  open fl use {F, isfinite}

  within_finite :
      (a x b : F)
      → isfinite a ≡ true
      → isfinite b ≡ true
      → fl.lef a x ≡ true
      → fl.lef x b ≡ true
      → isfinite x ≡ true
  within_finite a x b = o.finite_between a x b

  -- A stamped event within the limits passes all checks of its encoder.
  event_to_validated_dict_total :
      (e : OutputEvent F)
      → IsStamped e
      → InLimits fl c0 e
      → (j : Json F) × (event_to_validated_dict fl e ≡ ok j)
  unfolding event_to_validated_dict encode_gateway_state_event encode_neck_target_event
      encode_safety_stop_event encode_command_rejected_event
  event_to_validated_dict_total (state_event e) (h, k) w = rw (h, k) (_, refl)
  event_to_validated_dict_total (neck_event e) (h, k) w =
      let pan =
        within_finite _ e.pan_degrees _ configured.min_pan_finite configured.max_pan_finite
          w.pan_above w.pan_below in
      let tilt =
        within_finite _ e.tilt_degrees _ configured.min_tilt_finite configured.max_tilt_finite
          w.tilt_above w.tilt_below in
      rw (h, k, pan, tilt) (_, refl)
  event_to_validated_dict_total (stop_event e) (h, k, n, b, a) w = rw (h, k, n, b, a) (_, refl)
  event_to_validated_dict_total (rejected_event e) (h, m, k) w = rw (h, m, k) (_, refl)

  -- Each of these events gets its text.
  encode_events_total :
      (dumps : Dumps fl) (events : List (OutputEvent F))
      → ((e : OutputEvent F) (j : Json F)
          → event_to_validated_dict fl e ≡ ok j
          → (t : Text) × (dumps j ≡ ok t))
      → All IsStamped events
      → All (InLimits fl c0) events
      → (lines : List Text) × (encode_events fl dumps events ≡ ok lines)
        × (length lines ≡ length events)
  unfolding encode_events encode_event
  encode_events_total dumps [] d s w = ([], refl, refl)
  encode_events_total dumps (e ∷ es) d s w =
      let (j, checked) = event_to_validated_dict_total e s.0 w.0 in
      let (t, dumped) = d e j checked in
      let (ts, rest, n) = encode_events_total dumps es d s.1 w.1 in
      (t ∷ ts, rw checked (rw dumped (rw rest refl)), omega (arith, n))

  -- What calls keep of the gateway.
  record IsReady (g : VrGateway F) : Type 0 where
    correlated : IsCorrelated g
    has_neck : HasNeck fl c0 g.neck_controller

  module _ (decoder : Decoder F) (dumps : Dumps fl) where
    -- A call keeps the gateway ready, and its events are stamped and within the limits.
    abbrev KeepsReady : VrGateway F → Result (List (OutputEvent F)) → Type 0
    KeepsReady g events =
        IsReady g × All IsStamped (emitted events) × All (InLimits fl c0) (emitted events)

    poll-IsReady :
        (g : VrGateway F) (now : ℕ)
        → leb now max_int64 ≡ true
        → IsReady g
        → KeepsReady (Gateway.poll g now).0 (ok (Gateway.poll g now).1)
    unfolding Gateway.poll step
    poll-IsReady g now t r =
        let (kept, stamped) = evaluate_deadline-IsGood now t g r.correlated in
        let (neck, limited) = step-Respects fl o c0 g (polls now) r.has_neck in
        (record { correlated = kept; has_neck = neck }, stamped, limited)

    handle-IsReady :
        (g : VrGateway F) (x : Value F) (now : ℕ)
        → leb now max_int64 ≡ true
        → IsSent fl x
        → IsReady g
        → KeepsReady (handle fl g x now).0 (handle fl g x now).1
    handle-IsReady g x now t s r =
        let (kept, stamped) = handle-IsGood fl now t g x s r.correlated in
        let (neck, limited) = Handled-Respects fl o c0 (handle-Handled fl g x now) r.has_neck in
        (record { correlated = kept; has_neck = neck }, stamped, limited)

    call-IsReady :
        (g : VrGateway F) (call : AdapterCall)
        → InTime call
        → IsReady g
        → KeepsReady
            (adapter_step fl decoder dumps g call).0
            (gateway_events fl decoder dumps g call)
    unfolding adapter_step gateway_events handle_command Adapter.poll
    call-IsReady g (poll now) t r = poll-IsReady g now t r
    call-IsReady g (command raw now) t r =
        elim (Result-cases (parsed fl (decode_command fl decoder raw))) [
          | inl (x, e) ↦
              rw (e, handle_command)
                (handle-IsReady g x now t (parsed-IsSent fl decoder dumps raw x e) r)
          | inr (x, e) ↦ rw (e, handle_command) (r, tt, tt)
        ]

    adapter_run-IsReady :
        (g : VrGateway F) (calls : List AdapterCall)
        → All InTime calls
        → IsReady g
        → IsReady (adapter_run fl decoder dumps g calls)
    unfolding adapter_run
    adapter_run-IsReady g [] t r = r
    adapter_run-IsReady g (call ∷ calls) t r =
        adapter_run-IsReady (adapter_step fl decoder dumps g call).0 calls t.1
          (call-IsReady g call t.0 r).0

    -- The answer is the encoding of the gateway's events.
    adapter_step-encode_events :
        (g : VrGateway F) (call : AdapterCall) (events : List (OutputEvent F))
        → gateway_events fl decoder dumps g call ≡ ok events
        → (adapter_step fl decoder dumps g call).1 ≡ encode_events fl dumps events
    unfolding adapter_step gateway_events handle_command Adapter.poll
    adapter_step-encode_events g (poll now) events h = ap (encode_events fl dumps) (ok-injective h)
    adapter_step-encode_events g (command raw now) events h =
        let (x, e, k) = bind-ok (parsed fl (decode_command fl decoder raw)) _ h in
        rw (e, handle_command) (rw k refl)

-- An adapter over a new gateway with a configuration that passes its checks, floats that follow IEEE
-- 754, and a `json.dumps` that gives a text for each document that the encoders have checked. After
-- any calls, all at times below 2^63: whatever a call is, a poll or any raw text, if the gateway
-- gives events for it without an exception, the adapter answers with one text for each event.
pub adapter_run-answers :
    (fl : FloatOps) (o : IsIeee fl) (c0 c : NeckControlConfig fl.F) (n : NeckController fl.F)
    (config : GatewayConfig) (decoder : Decoder fl.F) (dumps : Dumps fl) (calls : List AdapterCall)
    (call : AdapterCall) (events : List (OutputEvent fl.F))
    → check_config fl c ≡ ok c0
    → neck_controller fl c0 ≡ ok n
    → IsDumps fl decoder dumps
    → All InTime calls
    → InTime call
    → gateway_events fl decoder dumps
        (adapter_run fl decoder dumps (vr_gateway n config) calls)
        call
      ≡ ok events
    → (lines : List Text) × ((adapter_step fl decoder dumps
          (adapter_run fl decoder dumps (vr_gateway n config) calls)
          call).1
        ≡ ok lines)
      × (length lines ≡ length events)
unfolding vr_gateway
adapter_run-answers fl o c0 c n config decoder dumps calls call events checked built d t t' h =
    let safe = neck_controller-IsSafe fl c c0 n checked built in
    let same = neck_controller_config fl c0 n built in
    let configured = subst (IsConfigured fl) same safe.configured in
    let neck : HasNeck fl c0 n = record { safe = safe; configured = same } in
    let ready =
      adapter_run-IsReady fl o c0 configured decoder dumps (vr_gateway n config) calls t
        (record { correlated = none-Correlates; has_neck = neck }) in
    let (kept, stamped, limited) = call-IsReady fl o c0 configured decoder dumps _ call t' ready in
    let (lines, encoded, counted) =
      encode_events_total fl o c0 configured dumps events d
        (subst (λ r. All IsStamped (emitted r)) h stamped)
        (subst (λ r. All (InLimits fl c0) (emitted r)) h limited) in
    (
      lines,
      adapter_step-encode_events fl o c0 configured decoder dumps _ call events h ∙ encoded,
      counted,
    )
