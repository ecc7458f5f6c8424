-- ===== src/Gateway/Invariant.antt =====
-- robot/vr_gateway/gateway.py: the session fields fit the state, whatever is called.
use valera_control_tower.Base.{
  ℕ, ◌≤◌, ◌≡◌, true, arith, Option, none, some, List, Text, member, text_eq_refl,
}
use valera_control_tower.Base.Float.{FloatOps}
use valera_control_tower.Messages.{
  GatewayState, awaiting_recenter, head_active, CommandEnvelope, Quaternion,
}
use valera_control_tower.Messages.Validation.{Value}
use valera_control_tower.Neck.{NeckController}
use valera_control_tower.Gateway.{
  VrGateway, GatewayConfig, vr_gateway, same_state, accept, evaluate_deadline, end_handshake,
  stop_motion, handshake_expired, watchdog_expired,
}
use valera_control_tower.Gateway.Handlers.{
  Outcome, start_session, start_rejection, handle_session_stop, handle_emergency_stop, rejection_of,
  recenter_to, pose_to,
}
use valera_control_tower.Gateway.Handle.{handle, reject_invalid}
use valera_control_tower.Gateway.Cases.{
  Handled, untrusted, uncaught, emergency, overtaken, routed, failed, refused, started, kept_mode,
  stopped, recentered, posed, handle-Handled,
}

-- No session: the five fields are `None`.
abbrev pub Closed : Option Text → Option ℕ → Option ℕ → Option ℕ → Option ℕ → Type 0
Closed none none none none none = Unit
Closed _ _ _ _ _ = ⊥

-- A session: the five fields are set, the sequence is positive, and the identifier is used.
abbrev pub Open : List Text → Option Text → Option ℕ → Option ℕ → Option ℕ → Option ℕ → Type 0
Open used (some session) (some sequence) (some timestamp) (some begun) (some received) =
    (member session used ≡ true) × (1 ≤ sequence)
Open used _ _ _ _ _ = ⊥

abbrev pub Fits :
    GatewayState → List Text → Option Text → Option ℕ → Option ℕ → Option ℕ → Option ℕ → Type 0
Fits awaiting_recenter used a n t b r = Open used a n t b r
Fits head_active used a n t b r = Open used a n t b r
Fits _ used a n t b r = Closed a n t b r

-- Exactly while it waits for a recenter or is active, the gateway has a session.
abbrev pub IsWellFormed : {F : Type 0} → VrGateway F → Type 0
IsWellFormed g =
    Fits g.state g.used_session_ids g.active_session_id g.last_sequence g.last_timestamp_ms
      g.session_started_monotonic_ns g.last_valid_packet_received_monotonic_ns

module _ {F : Type 0} where
  pub vr_gateway-IsWellFormed :
      (n : NeckController F) (c : GatewayConfig) → IsWellFormed (vr_gateway n c)
  unfolding vr_gateway
  vr_gateway-IsWellFormed n c = tt

  pub evaluate_deadline-IsWellFormed :
      (g : VrGateway F) (now : ℕ) → IsWellFormed g → IsWellFormed (evaluate_deadline g now).0
  unfolding evaluate_deadline end_handshake stop_motion handshake_expired watchdog_expired
  evaluate_deadline-IsWellFormed g now v = ground arith

  handle_emergency_stop-IsWellFormed :
      (g : VrGateway F) (c : CommandEnvelope F) (now : ℕ)
      → IsWellFormed g
      → IsWellFormed (handle_emergency_stop g c now).0
  unfolding handle_emergency_stop
  handle_emergency_stop-IsWellFormed g c now v = ground arith

  start_session-IsWellFormed :
      (g : VrGateway F) (c : CommandEnvelope F) (now : ℕ)
      → start_rejection g c c.payload ≡ none
      → IsWellFormed (start_session g c now).0
  unfolding start_session start_rejection member
  start_session-IsWellFormed g c now h = ground (arith, text_eq_refl c.session_id)

  -- A command that passes the guards belongs to the open session.
  pub rejection_of-none :
      (g : VrGateway F) (c : CommandEnvelope F)
      → IsWellFormed g
      → rejection_of g c ≡ none
      → Open g.used_session_ids g.active_session_id
          (some c.sequence)
          (some c.timestamp_ms)
          g.session_started_monotonic_ns
          g.last_valid_packet_received_monotonic_ns
  unfolding rejection_of same_state
  rejection_of-none g c v h = ground arith

  accept-IsWellFormed :
      (g : VrGateway F) (c : CommandEnvelope F) (now : ℕ)
      → IsWellFormed g
      → rejection_of g c ≡ none
      → IsWellFormed (accept g c now)
  unfolding accept rejection_of same_state
  accept-IsWellFormed g c now v h = ground arith

  handle_session_stop-IsWellFormed :
      (g : VrGateway F) (c : CommandEnvelope F) (now : ℕ)
      → IsWellFormed (handle_session_stop g c now).0
  unfolding handle_session_stop
  handle_session_stop-IsWellFormed g c now = ground arith

module _ (fl : FloatOps) where
  open fl use {F}

  recenter_to-IsWellFormed :
      (g : VrGateway F) (c : CommandEnvelope F) (q : Quaternion F) (now : ℕ)
      → IsWellFormed g
      → rejection_of g c ≡ none
      → IsWellFormed (recenter_to fl g c q now).0
  unfolding recenter_to rejection_of
  recenter_to-IsWellFormed g c q now v h = ground arith

  pose_to-IsWellFormed :
      (g : VrGateway F) (c : CommandEnvelope F) (q : Quaternion F) (now : ℕ)
      → IsWellFormed g
      → rejection_of g c ≡ none
      → IsWellFormed (pose_to fl g c q now).0
  unfolding pose_to rejection_of same_state
  pose_to-IsWellFormed g c q now v h = ground arith

  Handled-IsWellFormed :
      {g : VrGateway F} {now : ℕ} {x : Value F} {r : Outcome F}
      → Handled fl g now x r
      → IsWellFormed g
      → IsWellFormed r.0
  unfolding reject_invalid
  Handled-IsWellFormed {g} {now} {x} (untrusted e i) v = evaluate_deadline-IsWellFormed g now v
  Handled-IsWellFormed (uncaught e i b) v = v
  Handled-IsWellFormed {g} {now} (emergency c d) v = handle_emergency_stop-IsWellFormed g c now v
  Handled-IsWellFormed {g} {now} (overtaken c d code) v = evaluate_deadline-IsWellFormed g now v
  Handled-IsWellFormed (routed h w (failed e)) v = v
  Handled-IsWellFormed (routed h w (refused c d code)) v = v
  Handled-IsWellFormed {g} {now} (routed h w (started c d e)) v =
      start_session-IsWellFormed g c now e
  Handled-IsWellFormed {g} {now} (routed h w (kept_mode c d e)) v = accept-IsWellFormed g c now v e
  Handled-IsWellFormed {g} {now} (routed h w (stopped c d e)) v =
      handle_session_stop-IsWellFormed g c now
  Handled-IsWellFormed {g} {now} (routed h w (recentered c d q e s)) v =
      recenter_to-IsWellFormed g c q now v e
  Handled-IsWellFormed {g} {now} (routed h w (posed c d p q ec ep en e s)) v =
      pose_to-IsWellFormed g c q now v e

  -- `handle` keeps the gateway well formed on every branch, also where it raises.
  pub handle-IsWellFormed :
      (g : VrGateway F) (x : Value F) (now : ℕ)
      → IsWellFormed g
      → IsWellFormed (handle fl g x now).0
  handle-IsWellFormed g x now v = Handled-IsWellFormed (handle-Handled fl g x now) v
