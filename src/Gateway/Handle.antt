-- ===== src/Gateway/Handle.antt =====
-- robot/vr_gateway/gateway.py: `handle`, from the validation of a command to its dispatch.
use valera_control_tower.Base.{ℕ, ◌&&◌, none, some, List, [], ◌∷◌, ◌++◌, if◌then◌else◌, ok, raised}
use valera_control_tower.Base.Float.{FloatOps}
use valera_control_tower.Messages.{
  CommandName, mode_set, head_pose, head_recenter, safe_stopped, RejectionCode, no_active_session,
  watchdog_active, invalid_payload, CommandEnvelope, OutputEvent,
}
use valera_control_tower.Messages.Validation.{Value, validate_command_envelope}
use valera_control_tower.Gateway.{VrGateway, same_state, evaluate_deadline}
use valera_control_tower.Gateway.Handlers.{
  Outcome, is_caught, is_emergency_stop, is_session_start, is_empty_payload, reject, rejecting,
  reject_untrusted, handle_session_start, handle_mode_set, handle_session_stop,
  handle_emergency_stop, rejection_of, handle_recenter, handle_pose,
}

-- The code for a command that comes with an elapsed deadline.
abbrev pub overtaken_code : {F : Type 0} → VrGateway F → RejectionCode
overtaken_code g = if same_state g.state safe_stopped then watchdog_active else no_active_session

module _ (fl : FloatOps) where
  open fl use {F}

  -- The dispatch at the end of `handle`.
  unfoldable pub perform : VrGateway F → CommandEnvelope F → ℕ → CommandName → Outcome F
  perform g c now mode_set = handle_mode_set g c now c.payload
  perform g c now head_recenter = handle_recenter fl g c now c.payload
  perform g c now head_pose = handle_pose fl g c now c.payload
  perform g c now _ = handle_session_stop g c now

  -- `handle` for a command that no deadline has overtaken.
  unfoldable pub route : VrGateway F → CommandEnvelope F → ℕ → Outcome F
  route g c now =
      if is_session_start c.command then handle_session_start g c now else elim (rejection_of g c) [
        | some code ↦ rejecting g c code now
        | none ↦ perform g c now c.command
      ]

  unfoldable pub after_deadline :
      VrGateway F → List (OutputEvent F) → CommandEnvelope F → ℕ → Outcome F
  after_deadline g [] c now =
      if is_emergency_stop c.command then rejecting g c invalid_payload now else route g c now
  after_deadline g (event ∷ events) c now =
      let code = if is_emergency_stop c.command then invalid_payload else overtaken_code g in
      (g, ok (event ∷ events ++ (reject c code now ∷ [])))

  -- `handle` behind the validation.
  unfoldable pub handle_valid : VrGateway F → CommandEnvelope F → ℕ → Outcome F
  handle_valid g c now =
      if is_emergency_stop c.command && is_empty_payload c.payload
      then handle_emergency_stop g c now
      else let (g', events) = evaluate_deadline g now in after_deadline g' events c now

  unfoldable pub reject_invalid : VrGateway F → Value F → ℕ → Outcome F
  reject_invalid g command now =
      let (g', events) = evaluate_deadline g now in
      (g', ok (events ++ (reject_untrusted command invalid_payload now ∷ [])))

  -- `handle`
  unfoldable pub handle : VrGateway F → Value F → ℕ → Outcome F
  handle g command now = elim (validate_command_envelope fl command) [
    | ok c ↦ handle_valid g c now
    | raised e ↦ if is_caught e then reject_invalid g command now else (g, raised e)
  ]
