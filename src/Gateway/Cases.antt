-- ===== src/Gateway/Cases.antt =====
-- robot/vr_gateway/gateway.py: the ways in which a call of `handle` can go, as a relation. Proofs
-- about `handle` match on it.
use valera_control_tower.Base.{
  ℕ, ◌≡◌, refl, ◌⊎◌, inl, inr, true, false, ◌&&◌, arith, none, List, [], ◌∷◌, ◌++◌, ok, raised,
  Exception, Bool-cases, Option-cases, if◌then◌else◌, Result-cases, text, text_eq,
}
use valera_control_tower.Base.Float.{FloatOps}
use valera_control_tower.Messages.{
  CommandName, mode_set, head_pose, head_recenter, GatewayState, awaiting_recenter, head_active,
  idle, safe_stopped, state_event, stop_event, StopReason, RejectionCode, invalid_payload,
  CommandEnvelope, OutputEvent, Quaternion, pose_payload, PosePayload, Payload, mode_set_payload,
}
use valera_control_tower.Messages.Validation.{Value, validate_command_envelope, normalized}
use valera_control_tower.Gateway.{
  VrGateway, same_state, accept, end_handshake, stop_motion, gateway_state_event, safety_stop_event,
  evaluate_deadline, handshake_expired, watchdog_expired,
}
use valera_control_tower.Gateway.Handlers.{
  Outcome, is_caught, is_emergency_stop, is_session_start, is_blocked_mode, is_empty_payload,
  reject, rejecting, handle_session_start, start_session, start_rejection, handle_mode_set,
  handle_session_stop, handle_emergency_stop, rejection_of, handle_recenter, recenter_to,
  handle_pose, pose_to,
}
use valera_control_tower.Gateway.Handle.{
  perform, route, after_deadline, overtaken_code, handle_valid, reject_invalid, handle,
}

pub same_state_eq : (a b : GatewayState) → same_state a b ≡ true → a ≡ b
unfolding same_state
same_state_eq a b h = ground arith

module _ (fl : FloatOps) where
  open fl use {F}

  -- What a call with the object `x` does once no deadline has elapsed, if the command `c` that it
  -- holds is no emergency stop.
  pub data Routed (g : VrGateway F) (now : ℕ) (x : Value F) : Outcome F → Type 0 where
    failed : (e : Exception) → Routed g now x (g, raised e)
    refused :
        (c : CommandEnvelope F)
        → validate_command_envelope fl x ≡ ok c
        → (code : RejectionCode) → Routed g now x (rejecting g c code now)
    started :
        (c : CommandEnvelope F)
        → validate_command_envelope fl x ≡ ok c
        → start_rejection g c c.payload ≡ none
        → Routed g now x (start_session g c now)
    kept_mode :
        (c : CommandEnvelope F)
        → validate_command_envelope fl x ≡ ok c
        → rejection_of g c ≡ none
        → Routed g now x (accept g c now, ok [])
    stopped :
        (c : CommandEnvelope F)
        → validate_command_envelope fl x ≡ ok c
        → rejection_of g c ≡ none
        → Routed g now x (handle_session_stop g c now)
    recentered :
        (c : CommandEnvelope F)
        → validate_command_envelope fl x ≡ ok c
        → (q : Quaternion F) → rejection_of g c ≡ none
        → (g.state ≡ awaiting_recenter) ⊎ (g.state ≡ head_active)
        → Routed g now x (recenter_to fl g c q now)
    posed :
        (c : CommandEnvelope F)
        → validate_command_envelope fl x ≡ ok c
        → (p : PosePayload F) (q : Quaternion F) → c.command ≡ head_pose
        → c.payload ≡ pose_payload p
        → normalized fl p.orientation ≡ ok q
        → rejection_of g c ≡ none
        → g.state ≡ head_active
        → Routed g now x (pose_to fl g c q now)

  -- What a call of `handle` with the object `x` does.
  pub data Handled (g : VrGateway F) (now : ℕ) (x : Value F) : Outcome F → Type 0 where
    untrusted :
        (e : Exception)
        → validate_command_envelope fl x ≡ raised e
        → Handled g now x (reject_invalid fl g x now)
    uncaught :
        (e : Exception)
        → validate_command_envelope fl x ≡ raised e
        → is_caught e ≡ false
        → Handled g now x (g, raised e)
    emergency :
        (c : CommandEnvelope F)
        → validate_command_envelope fl x ≡ ok c
        → Handled g now x (handle_emergency_stop g c now)
    overtaken :
        (c : CommandEnvelope F)
        → validate_command_envelope fl x ≡ ok c
        → (code : RejectionCode)
        → Handled g now x (
          (evaluate_deadline g now).0,
          ok ((evaluate_deadline g now).1 ++ (reject c code now ∷ [])),
        )
    routed :
        {r : Outcome F}
        → handshake_expired g now ≡ false
        → watchdog_expired g now ≡ false
        → Routed g now x r
        → Handled g now x r

  handle_recenter-Routed :
      (g : VrGateway F) (c : CommandEnvelope F) (now : ℕ) (x : Value F)
      (d : validate_command_envelope fl x ≡ ok c) (p : Payload F)
      → rejection_of g c ≡ none
      → Routed g now x (handle_recenter fl g c now p)
  unfolding handle_recenter
  handle_recenter-Routed g c now x d (pose_payload p) h =
      elim (Bool-cases (same_state g.state awaiting_recenter)) [
        | inl a ↦ rw (a, handle_recenter) (turned p (inl (same_state_eq _ _ a)))
        | inr a ↦ elim (Bool-cases (same_state g.state head_active)) [
          | inl b ↦ rw (a, handle_recenter) (rw b (turned p (inr (same_state_eq _ _ b))))
          | inr b ↦ rw (a, handle_recenter) (rw b (refused c d _))
        ]
      ]
    where
      turned :
          (p : PosePayload F)
          → (g.state ≡ awaiting_recenter) ⊎ (g.state ≡ head_active)
          → Routed g now x (elim (normalized fl p.orientation) [
            | raised e ↦ (g, raised e)
            | ok q ↦ recenter_to fl g c q now
          ])
      turned p s = elim (Result-cases (normalized fl p.orientation)) [
        | inl (q, e) ↦ rw e (recentered c d q h s)
        | inr (x, e) ↦ rw e (failed x)
      ]
  handle_recenter-Routed g c now x d _ h = failed _

  handle_pose-Routed :
      (g : VrGateway F) (c : CommandEnvelope F) (now : ℕ) (x : Value F)
      (d : validate_command_envelope fl x ≡ ok c) (v : Payload F)
      → c.command ≡ head_pose
      → c.payload ≡ v
      → rejection_of g c ≡ none
      → Routed g now x (handle_pose fl g c now v)
  unfolding handle_pose
  handle_pose-Routed g c now x d (pose_payload p) command payload h =
      elim (Bool-cases (same_state g.state head_active)) [
        | inr b ↦ rw (b, handle_pose) (refused c d _)
        | inl b ↦ elim (Result-cases (normalized fl p.orientation)) [
          | inl (q, e) ↦
              rw (b, handle_pose) (rw e (posed c d p q command payload e h (same_state_eq _ _ b)))
          | inr (x, e) ↦ rw (b, handle_pose) (rw e (failed x))
        ]
      ]
  handle_pose-Routed g c now x d _ command payload h = failed _

  handle_mode_set-Routed :
      (g : VrGateway F) (c : CommandEnvelope F) (now : ℕ) (x : Value F)
      (d : validate_command_envelope fl x ≡ ok c) (v : Payload F)
      → rejection_of g c ≡ none
      → Routed g now x (handle_mode_set g c now v)
  unfolding handle_mode_set
  handle_mode_set-Routed g c now x d (mode_set_payload m) h =
      elim (Bool-cases (is_blocked_mode m)) [
        | inl b ↦ rw (b, handle_mode_set) (refused c d _)
        | inr b ↦ elim (Bool-cases (text_eq m (text "head"))) [
          | inl t ↦ rw (b, handle_mode_set) (rw t (kept_mode c d h))
          | inr t ↦ rw (b, handle_mode_set) (rw t (refused c d _))
        ]
      ]
  handle_mode_set-Routed g c now x d _ h = failed _

  perform-Routed :
      (g : VrGateway F) (c : CommandEnvelope F) (now : ℕ) (x : Value F)
      (d : validate_command_envelope fl x ≡ ok c) (command : CommandName)
      → c.command ≡ command
      → rejection_of g c ≡ none
      → Routed g now x (perform fl g c now command)
  unfolding perform
  perform-Routed g c now x d mode_set e h = handle_mode_set-Routed g c now x d c.payload h
  perform-Routed g c now x d head_recenter e h = handle_recenter-Routed g c now x d c.payload h
  perform-Routed g c now x d head_pose e h = handle_pose-Routed g c now x d c.payload e refl h
  perform-Routed g c now x d _ e h = stopped c d h

  route-Routed :
      (g : VrGateway F) (c : CommandEnvelope F) (now : ℕ) (x : Value F)
      (d : validate_command_envelope fl x ≡ ok c)
      → Routed g now x (route fl g c now)
  unfolding route handle_session_start
  route-Routed g c now x d = elim (Bool-cases (is_session_start c.command)) [
    | inl b ↦ elim (Option-cases (start_rejection g c c.payload)) [
      | inl e ↦ rw (b, route) (rw (e, handle_session_start) (started c d e))
      | inr (code, e) ↦ rw (b, route) (rw (e, handle_session_start) (refused c d code))
    ]
    | inr b ↦ elim (Option-cases (rejection_of g c)) [
      | inl e ↦ rw (b, route) (rw e (perform-Routed g c now x d c.command refl e))
      | inr (code, e) ↦ rw (b, route) (rw e (refused c d code))
    ]
  ]

  -- The handshake ends with its state event.
  pub end_handshake_event :
      (g : VrGateway F) (now : ℕ)
      → handshake_expired g now ≡ true
      → (end_handshake g now).1
        ≡ state_event (gateway_state_event now idle g.active_session_id g.last_sequence) ∷ []
  unfolding end_handshake handshake_expired
  end_handshake_event g now h = ground arith

  pub stop_motion_events :
      (g : VrGateway F) (now : ℕ)
      → watchdog_expired g now ≡ true
      → (stop_motion g now).1
        ≡ state_event (gateway_state_event now safe_stopped g.active_session_id g.last_sequence)
          ∷ stop_event
              (safety_stop_event now StopReason.watchdog g.active_session_id g.last_sequence)
          ∷ []
  unfolding stop_motion watchdog_expired
  stop_motion_events g now h = ground arith

  -- Either no deadline has elapsed and nothing happens, or there is an event.
  pub evaluate_deadline-cases :
      (g : VrGateway F) (now : ℕ)
      → ((handshake_expired g now ≡ false)
          × (watchdog_expired g now ≡ false)
          × (evaluate_deadline g now ≡ (g, [])))
        ⊎ ((event : OutputEvent F) × (events : List (OutputEvent F)) × ((evaluate_deadline g now).1
              ≡ event ∷ events))
  unfolding evaluate_deadline
  evaluate_deadline-cases g now = elim (Bool-cases (handshake_expired g now)) [
    | inl b ↦ rw (b, evaluate_deadline) (inr (_, _, end_handshake_event g now b))
    | inr b ↦ elim (Bool-cases (watchdog_expired g now)) [
      | inl d ↦ rw (b, evaluate_deadline) (rw d (inr (_, _, stop_motion_events g now d)))
      | inr d ↦ rw (b, evaluate_deadline) (rw d (inl (refl, refl, refl)))
    ]
  ]

  -- A command that comes with an elapsed deadline is rejected after the deadline's events.
  pub after_deadline-cons :
      (g : VrGateway F) (c : CommandEnvelope F) (now : ℕ) (events : List (OutputEvent F))
      {event : OutputEvent F} {rest : List (OutputEvent F)}
      → events ≡ event ∷ rest
      → after_deadline fl g events c now ≡ (
        g,
        ok (
            events
            ++ (reject c
                  (if is_emergency_stop c.command then invalid_payload else overtaken_code g)
                  now
                ∷ [])),
      )
  unfolding after_deadline
  after_deadline-cons g c now [] e = cc
  after_deadline-cons g c now (event ∷ rest) e = refl

  handle_valid-Handled :
      (g : VrGateway F) (c : CommandEnvelope F) (now : ℕ) (x : Value F)
      (d : validate_command_envelope fl x ≡ ok c)
      → Handled g now x (handle_valid fl g c now)
  unfolding handle_valid after_deadline
  handle_valid-Handled g c now x d =
      elim (Bool-cases (is_emergency_stop c.command && is_empty_payload c.payload)) [
        | inl b ↦ rw (b, handle_valid) (emergency c d)
        | inr b ↦
            rw (b, handle_valid)
              (elim (evaluate_deadline-cases g now) [
                | inl (h, w, e) ↦ rw e (timely h w (Bool-cases (is_emergency_stop c.command)))
                | inr (event, events, e) ↦ rw (after_deadline-cons _ c now _ e) (overtaken c d _)
              ])
      ]
    where
      timely :
          handshake_expired g now ≡ false
          → watchdog_expired g now ≡ false
          → (is_emergency_stop c.command ≡ true) ⊎ (is_emergency_stop c.command ≡ false)
          → Handled g now x (after_deadline fl g [] c now)
      timely h w (inl i) = rw (i, after_deadline) (routed h w (refused c d _))
      timely h w (inr i) = rw (i, after_deadline) (routed h w (route-Routed g c now x d))

  -- Every call of `handle` is one of the cases.
  pub handle-Handled :
      (g : VrGateway F) (v : Value F) (now : ℕ) → Handled g now v (handle fl g v now)
  unfolding handle
  handle-Handled g v now = elim (Result-cases (validate_command_envelope fl v)) [
    | inl (c, e) ↦ rw (e, handle) (handle_valid-Handled g c now v e)
    | inr (x, e) ↦ elim (Bool-cases (is_caught x)) [
      | inl b ↦ rw (e, handle) (rw b (untrusted x e))
      | inr b ↦ rw (e, handle) (rw b (uncaught x e b))
    ]
  ]
