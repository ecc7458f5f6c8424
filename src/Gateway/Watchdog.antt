-- ===== src/Gateway/Watchdog.antt =====
-- robot/vr_gateway/gateway.py: what elapsed deadlines do.
use valera_control_tower.Base.{
  ℕ, ◌+◌, ◌≤◌, ◌≡◌, ◌≢◌, arith, Option, none, some, [], ◌∷◌, inl, inr, ◌⊎◌,
}
use valera_control_tower.Messages.{
  GatewayState, idle, awaiting_recenter, head_active, safe_stopped, StopReason, state_event,
  stop_event,
}
use valera_control_tower.Gateway.{
  VrGateway, evaluate_deadline, end_handshake, stop_motion, handshake_expired, watchdog_expired,
  poll, invalidate, gateway_state_event, safety_stop_event,
}

-- The deadline of a state has passed: the handshake's after the start of the session, the
-- watchdog's after the last valid packet.
abbrev pub IsOver : Option ℕ → ℕ → ℕ → Type 0
IsOver none timeout now = ⊥
IsOver (some since) timeout now = since + timeout ≤ now

module _ {F : Type 0} where
  -- The gateway `g` in a new state and without a session.
  abbrev pub closed_in : VrGateway F → GatewayState → VrGateway F
  closed_in g state = invalidate (record g { state = state })

  evaluate_deadline_watchdog :
      (g : VrGateway F) (now : ℕ)
      → g.state ≡ head_active
      → IsOver g.last_valid_packet_received_monotonic_ns g.config.motion_watchdog_timeout_ns now
      → evaluate_deadline g now ≡ (
        closed_in g safe_stopped,
        state_event (gateway_state_event now safe_stopped g.active_session_id g.last_sequence)
            ∷ stop_event
                (safety_stop_event now StopReason.watchdog g.active_session_id g.last_sequence)
            ∷ [],
      )
  unfolding evaluate_deadline handshake_expired watchdog_expired stop_motion
  evaluate_deadline_watchdog g now h e = ground arith

  -- With the watchdog run out a poll ends the session and gives the state and the stop, for the
  -- session that was active.
  poll_watchdog :
      (g : VrGateway F) (now : ℕ)
      → g.state ≡ head_active
      → IsOver g.last_valid_packet_received_monotonic_ns g.config.motion_watchdog_timeout_ns now
      → poll g now ≡ (
        closed_in g safe_stopped,
        state_event (gateway_state_event now safe_stopped g.active_session_id g.last_sequence)
            ∷ stop_event
                (safety_stop_event now StopReason.watchdog g.active_session_id g.last_sequence)
            ∷ [],
      )
  unfolding poll
  poll_watchdog g now h e = evaluate_deadline_watchdog g now h e

  -- With the handshake run out a poll ends the session with its state alone: nothing moved.
  poll_handshake :
      (g : VrGateway F) (now : ℕ)
      → g.state ≡ awaiting_recenter
      → IsOver g.session_started_monotonic_ns g.config.handshake_timeout_ns now
      → poll g now ≡ (
        closed_in g idle,
        state_event (gateway_state_event now idle g.active_session_id g.last_sequence) ∷ [],
      )
  unfolding poll evaluate_deadline handshake_expired end_handshake
  poll_handshake g now h e = ground arith

  evaluate_deadline-state :
      (g : VrGateway F) (now : ℕ)
      → (evaluate_deadline g now ≡ (g, []))
        ⊎ ((evaluate_deadline g now).0.state ≡ idle)
        ⊎ ((evaluate_deadline g now).0.state ≡ safe_stopped)
  unfolding evaluate_deadline end_handshake stop_motion handshake_expired watchdog_expired
  evaluate_deadline-state g now = ground arith

  evaluate_deadline_quiet :
      (g : VrGateway F) (now : ℕ)
      → g.state ≢ awaiting_recenter
      → g.state ≢ head_active
      → evaluate_deadline g now ≡ (g, [])
  unfolding evaluate_deadline handshake_expired watchdog_expired
  evaluate_deadline_quiet g now a b = ground arith

  -- A deadline acts once: a second poll at the same time changes nothing and gives no event.
  pub poll-poll : (g : VrGateway F) (now : ℕ) → poll (poll g now).0 now ≡ ((poll g now).0, [])
  unfolding poll
  poll-poll g now = elim (evaluate_deadline-state g now) [
    | inl e ↦ rw e e
    | inr (inl e) ↦ evaluate_deadline_quiet _ now (λ h. cc) (λ h. cc)
    | inr (inr e) ↦ evaluate_deadline_quiet _ now (λ h. cc) (λ h. cc)
  ]
