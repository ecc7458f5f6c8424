-- ===== src/Gateway/Diagram.antt =====
-- robot/vr_gateway/gateway.py: the transitions of `GatewayState`.
use mathlib.Core.Path.{subst}
use valera_control_tower.Base.{ℕ, ◌≡◌, sym, ◌⊎◌, inl, inr, arith, none}
use valera_control_tower.Base.Float.{FloatOps}
use valera_control_tower.Messages.{
  GatewayState, idle, awaiting_recenter, head_active, safe_stopped, CommandEnvelope, Quaternion,
}
use valera_control_tower.Messages.Validation.{Value}
use valera_control_tower.Gateway.{
  VrGateway, same_state, evaluate_deadline, handshake_expired, watchdog_expired, end_handshake,
  stop_motion, poll, accept,
}
use valera_control_tower.Gateway.Handlers.{
  Outcome, start_rejection, handle_emergency_stop, rejection_of, start_session, handle_session_stop,
  recenter_to, pose_to,
}
use valera_control_tower.Gateway.Handle.{reject_invalid}
use valera_control_tower.Gateway.Cases.{
  Handled, untrusted, uncaught, emergency, overtaken, routed, failed, refused, started, kept_mode,
  stopped, recentered, posed, handle-Handled,
}
use valera_control_tower.Gateway.Invariant.{IsWellFormed}
use valera_control_tower.Gateway.Trace.{Call, handles, polls, step}

-- The edges of the diagram. None leaves `estop_latched`, and `head_active` is entered from
-- `awaiting_recenter` alone.
infix 40 ◌⟶◌
pub data ◌⟶◌ : GatewayState → GatewayState → Type 0 where
  stay : {s : GatewayState} → s ⟶ s
  begin : {s : GatewayState} → (s ≡ GatewayState.estop_latched → ⊥) → s ⟶ awaiting_recenter
  center : awaiting_recenter ⟶ head_active
  give_up : awaiting_recenter ⟶ idle
  finish : head_active ⟶ idle
  lose : head_active ⟶ safe_stopped
  latch : {s : GatewayState} → s ⟶ GatewayState.estop_latched

module _ {F : Type 0} where
  evaluate_deadline-⟶ : (g : VrGateway F) (now : ℕ) → g.state ⟶ (evaluate_deadline g now).0.state
  unfolding evaluate_deadline end_handshake stop_motion handshake_expired watchdog_expired
  evaluate_deadline-⟶ g now = grind (arith, stay, give_up, lose)

  start_session_state :
      (g : VrGateway F) (c : CommandEnvelope F) (now : ℕ)
      → (start_session g c now).0.state ≡ awaiting_recenter
  unfolding start_session
  start_session_state g c now = ground arith

  handle_session_stop_state :
      (g : VrGateway F) (c : CommandEnvelope F) (now : ℕ)
      → (handle_session_stop g c now).0.state ≡ idle
  unfolding handle_session_stop
  handle_session_stop_state g c now = ground arith

  handle_emergency_stop_state :
      (g : VrGateway F) (c : CommandEnvelope F) (now : ℕ)
      → (handle_emergency_stop g c now).0.state ≡ GatewayState.estop_latched
  unfolding handle_emergency_stop
  handle_emergency_stop_state g c now = ground arith

  not_latched :
      (g : VrGateway F) (c : CommandEnvelope F)
      → start_rejection g c c.payload ≡ none
      → g.state ≡ GatewayState.estop_latched
      → ⊥
  unfolding start_rejection same_state
  not_latched g c h e = ground arith

  -- A command that passes the guards finds one of the two states with a session.
  in_session :
      (g : VrGateway F) (c : CommandEnvelope F)
      → IsWellFormed g
      → rejection_of g c ≡ none
      → (g.state ≡ awaiting_recenter) ⊎ (g.state ≡ head_active)
  unfolding rejection_of
  in_session g c v h = ground arith

  from_session :
      (g : VrGateway F) {t : GatewayState}
      → (g.state ≡ awaiting_recenter) ⊎ (g.state ≡ head_active)
      → awaiting_recenter ⟶ t
      → head_active ⟶ t
      → g.state ⟶ t
  from_session g {t = t} (inl e) a b = subst (λ s. s ⟶ t) (sym e) a
  from_session g {t = t} (inr e) a b = subst (λ s. s ⟶ t) (sym e) b

module _ (fl : FloatOps) where
  open fl use {F}

  recenter_to_state :
      (g : VrGateway F) (c : CommandEnvelope F) (q : Quaternion F) (now : ℕ)
      → (recenter_to fl g c q now).0.state ≡ head_active
  unfolding recenter_to
  recenter_to_state g c q now = ground arith

  pose_to_state :
      (g : VrGateway F) (c : CommandEnvelope F) (q : Quaternion F) (now : ℕ)
      → (pose_to fl g c q now).0.state ≡ g.state
  unfolding pose_to
  pose_to_state g c q now = ground arith

  Handled-⟶ :
      {g : VrGateway F} {now : ℕ} {x : Value F} {r : Outcome F}
      → Handled fl g now x r
      → IsWellFormed g
      → g.state ⟶ r.0.state
  unfolding reject_invalid accept
  Handled-⟶ {g} {now} {x} (untrusted e i) v = evaluate_deadline-⟶ g now
  Handled-⟶ (uncaught e i b) v = stay
  Handled-⟶ {g} {now} (emergency c d) v = rw (handle_emergency_stop_state g c now) latch
  Handled-⟶ {g} {now} (overtaken c d code) v = evaluate_deadline-⟶ g now
  Handled-⟶ (routed h w (failed e)) v = stay
  Handled-⟶ (routed h w (refused c d code)) v = stay
  Handled-⟶ {g} {now} (routed h w (started c d e)) v =
      rw (start_session_state g c now) (begin (not_latched g c e))
  Handled-⟶ (routed h w (kept_mode c d e)) v = stay
  Handled-⟶ {g} {now} (routed h w (stopped c d e)) v =
      rw (handle_session_stop_state g c now) (from_session g (in_session g c v e) give_up finish)
  Handled-⟶ {g} {now} (routed h w (recentered c d q e s)) v =
      rw (recenter_to_state g c q now) (from_session g s center stay)
  Handled-⟶ {g} {now} (routed h w (posed c d p q ec ep en e s)) v =
      rw (pose_to_state g c q now) stay

  -- Every call of `handle` or `poll` on a well-formed gateway follows an edge of the diagram.
  pub step-⟶ :
      (g : VrGateway F) (call : Call F) → IsWellFormed g → g.state ⟶ (step fl g call).0.state
  unfolding step poll
  step-⟶ g (handles x now) v = Handled-⟶ (handle-Handled fl g x now) v
  step-⟶ g (polls now) v = evaluate_deadline-⟶ g now
