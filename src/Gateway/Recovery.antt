-- ===== src/Gateway/Recovery.antt =====
-- robot/vr_gateway/gateway.py: from any state but the latch, a new session brings head control back.
use valera_control_tower.Base.{
  ℕ, ◌+◌, ◌<◌, ◌≡◌, ◌≢◌, ◌≤◌, refl, ap, ◌∙◌, arith, false, none, some, [], ◌∷◌, text, text_eq,
  text_eq_refl, member, ok,
}
use valera_control_tower.Base.Float.{FloatOps}
use valera_control_tower.Messages.{
  session_start, head_recenter, GatewayState, awaiting_recenter, head_active, CommandEnvelope,
  Quaternion, Payload, PosePayload, pose_payload, session_start_payload,
}
use valera_control_tower.Messages.Validation.{Value, validate_command_envelope, normalized}
use valera_control_tower.Gateway.{
  VrGateway, same_state, evaluate_deadline, end_handshake, stop_motion, handshake_expired,
  watchdog_expired, poll,
}
use valera_control_tower.Gateway.Handlers.{
  is_emergency_stop, is_session_start, handle_session_start, start_session, start_rejection,
  rejection_of, handle_recenter, recenter_to, payload_expected,
}
use valera_control_tower.Gateway.Handle.{handle, handle_valid, after_deadline, route, perform}
use valera_control_tower.Gateway.Trace.{handles, polls, step, run}
use valera_control_tower.Gateway.Watchdog.{poll-poll}

module _ {F : Type 0} where
  -- What a poll keeps.
  evaluate_deadline-keeps :
      (g : VrGateway F) (now : ℕ)
      → g.state ≢ GatewayState.estop_latched
      → ((evaluate_deadline g now).0.state ≢ GatewayState.estop_latched)
        × ((evaluate_deadline g now).0.used_session_ids ≡ g.used_session_ids)
        × ((evaluate_deadline g now).0.config ≡ g.config)
  unfolding evaluate_deadline end_handshake stop_motion
  evaluate_deadline-keeps g now h = ground arith

  -- A start with a fresh identifier is taken in any state but the latch.
  start_rejection-none :
      (g : VrGateway F) (c : CommandEnvelope F) (p : Payload F)
      → p ≡ session_start_payload (text "head")
      → g.state ≢ GatewayState.estop_latched
      → c.sequence ≡ 1
      → member c.session_id g.used_session_ids ≡ false
      → start_rejection g c p ≡ none
  unfolding start_rejection same_state text_eq
  start_rejection-none g c p e h s fresh = rw e (ground arith)

  -- The gateway waits for the recenter of the session that has been started.
  record IsStarted (g : VrGateway F) (c : CommandEnvelope F) (now timeout : ℕ) : Type 0 where
    waits : g.state ≡ awaiting_recenter
    session : g.active_session_id ≡ some c.session_id
    sequence : g.last_sequence ≡ some c.sequence
    timestamp : g.last_timestamp_ms ≡ some c.timestamp_ms
    begun : g.session_started_monotonic_ns ≡ some now
    limit : g.config.handshake_timeout_ns ≡ timeout

  start_session-IsStarted :
      (g : VrGateway F) (c : CommandEnvelope F) (now : ℕ)
      → IsStarted (start_session g c now).0 c now g.config.handshake_timeout_ns
  unfolding start_session
  start_session-IsStarted g c now = record {
    waits = ground arith;
    session = ground arith;
    sequence = ground arith;
    timestamp = ground arith;
    begun = ground arith;
    limit = ground arith;
  }

  -- Before the handshake ends no deadline has elapsed.
  evaluate_deadline-IsStarted :
      (g : VrGateway F) (c : CommandEnvelope F) (now timeout later : ℕ)
      → IsStarted g c now timeout
      → later < now + timeout
      → evaluate_deadline g later ≡ (g, [])
  unfolding evaluate_deadline handshake_expired watchdog_expired
  evaluate_deadline-IsStarted g c now timeout later s h =
      let waits = s.waits in let begun = s.begun in let limit = s.limit in ground arith

module _ (fl : FloatOps) where
  open fl use {F}

  -- A valid command that comes in time is routed.
  handle-route :
      (g : VrGateway F) (x : Value F) (c : CommandEnvelope F) (now : ℕ)
      → validate_command_envelope fl x ≡ ok c
      → is_emergency_stop c.command ≡ false
      → evaluate_deadline g now ≡ (g, [])
      → handle fl g x now ≡ route fl g c now
  unfolding handle handle_valid after_deadline
  handle-route g x c now d e quiet = rw (d, handle) (rw (e, handle_valid) (rw (quiet, e) refl))

  handle-start_session :
      (g : VrGateway F) (x : Value F) (c : CommandEnvelope F) (now : ℕ)
      → validate_command_envelope fl x ≡ ok c
      → c.command ≡ session_start
      → c.sequence ≡ 1
      → c.payload ≡ session_start_payload (text "head")
      → g.state ≢ GatewayState.estop_latched
      → member c.session_id g.used_session_ids ≡ false
      → evaluate_deadline g now ≡ (g, [])
      → handle fl g x now ≡ start_session g c now
  unfolding route handle_session_start
  handle-start_session g x c now d name one head free fresh quiet =
      let taken = start_rejection-none g c c.payload head free one fresh in
      handle-route g x c now d (ap is_emergency_stop name) quiet
      ∙ rw (ap is_session_start name, route) (rw (taken, handle_session_start) refl)

  -- The recenter of the session that waits for it.
  rejection_of-none :
      (g : VrGateway F) (a c : CommandEnvelope F) (p : PosePayload F) (now timeout : ℕ)
      → IsStarted g a now timeout
      → c.command ≡ head_recenter
      → c.payload ≡ pose_payload p
      → c.session_id ≡ a.session_id
      → a.sequence < c.sequence
      → a.timestamp_ms ≤ c.timestamp_ms
      → rejection_of g c ≡ none
  unfolding rejection_of same_state payload_expected
  rejection_of-none g a c p now timeout s name pose same after later =
      let waits = s.waits in
      let session = s.session in
      let sequence = s.sequence in
      let timestamp = s.timestamp in let matches = text_eq_refl a.session_id in ground arith

  handle-recenter_to :
      (g : VrGateway F) (x : Value F) (a c : CommandEnvelope F) (p : PosePayload F)
      (q : Quaternion F) (now timeout later : ℕ)
      → IsStarted g a now timeout
      → validate_command_envelope fl x ≡ ok c
      → c.command ≡ head_recenter
      → c.payload ≡ pose_payload p
      → normalized fl p.orientation ≡ ok q
      → rejection_of g c ≡ none
      → evaluate_deadline g later ≡ (g, [])
      → handle fl g x later ≡ recenter_to fl g c q later
  unfolding route perform handle_recenter same_state
  handle-recenter_to g x a c p q now timeout later s d name pose unit free quiet =
      handle-route g x c later d (ap is_emergency_stop name) quiet
      ∙ rw (ap is_session_start name, route)
          (rw free
            (rw name (rw pose (rw (ap (λ t. same_state t awaiting_recenter) s.waits, unit) refl))))

  recenter_to-active :
      (g : VrGateway F) (c : CommandEnvelope F) (q : Quaternion F) (now : ℕ)
      → ((recenter_to fl g c q now).0.state ≡ head_active)
        × ((recenter_to fl g c q now).0.active_session_id ≡ g.active_session_id)
  unfolding recenter_to
  recenter_to-active g c q now = ground arith

-- In any state but the emergency stop's latch, with or without a session, a poll, then at the same
-- time a session.start for the mode "head" with the sequence 1 and an identifier that has not been
-- used, and before the handshake times out a head.recenter of that session with a higher sequence, a
-- timestamp that is not lower and an orientation that can be normalised: they bring the gateway to
-- head_active, in the new session.
pub run-recovers :
    (fl : FloatOps) (g : VrGateway fl.F) (x y : Value fl.F) (a c : CommandEnvelope fl.F)
    (p : PosePayload fl.F) (q : Quaternion fl.F) (now later : ℕ)
    → g.state ≢ GatewayState.estop_latched
    → validate_command_envelope fl x ≡ ok a
    → a.command ≡ session_start
    → a.sequence ≡ 1
    → a.payload ≡ session_start_payload (text "head")
    → member a.session_id g.used_session_ids ≡ false
    → validate_command_envelope fl y ≡ ok c
    → c.command ≡ head_recenter
    → c.payload ≡ pose_payload p
    → normalized fl p.orientation ≡ ok q
    → c.session_id ≡ a.session_id
    → a.sequence < c.sequence
    → a.timestamp_ms ≤ c.timestamp_ms
    → later < now + g.config.handshake_timeout_ns
    → ((run fl g (polls now ∷ handles x now ∷ handles y later ∷ [])).0.state ≡ head_active)
      × ((run fl g (polls now ∷ handles x now ∷ handles y later ∷ [])).0.active_session_id
          ≡ some a.session_id)
unfolding run step poll
run-recovers fl g x y a c p q now later unlatched start name one head fresh center name' pose unit
      same after in_order in_time =
    let settled : VrGateway fl.F = (poll g now).0 in
    let (free, used, config) = evaluate_deadline-keeps g now unlatched in
    let begins =
      handle-start_session fl settled x a now start name one head free
        (ap (member a.session_id) used ∙ fresh) (poll-poll g now) in
    let waiting : VrGateway fl.F = (start_session settled a now).0 in
    let started = start_session-IsStarted settled a now in
    let quiet = evaluate_deadline-IsStarted waiting a now _ later started (rw config in_time) in
    let taken = rejection_of-none fl waiting a c p now _ started name' pose same after in_order in
    let turns =
      handle-recenter_to fl waiting y a c p q now _ later started center name' pose unit taken
        quiet in
    let (active, kept) = recenter_to-active fl waiting c q later in
    rw begins (rw turns (active, kept ∙ started.session))
