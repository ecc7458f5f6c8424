-- ===== src/Gateway/Latch.antt =====
-- robot/vr_gateway/gateway.py: the emergency stop.
use valera_control_tower.Base.{
  ℕ, ◌≡◌, arith, none, some, List, [], ◌∷◌, ◌++◌, ok, All, All-append, if◌then◌else◌,
}
use valera_control_tower.Base.Float.{FloatOps}
use valera_control_tower.Messages.{
  CommandName, GatewayState, CommandEnvelope, OutputEvent, neck_event, state_event, stop_event,
  empty_payload, StopReason,
}
use valera_control_tower.Messages.Validation.{Value, validate_command_envelope}
use valera_control_tower.Gateway.{
  VrGateway, same_state, evaluate_deadline, poll, handshake_expired, watchdog_expired,
  gateway_state_event, safety_stop_event,
}
use valera_control_tower.Gateway.Handlers.{
  Outcome, start_rejection, handle_emergency_stop, rejection_of, reject, reject_untrusted,
}
use valera_control_tower.Gateway.Handle.{handle, handle_valid, reject_invalid}
use valera_control_tower.Gateway.Cases.{
  Handled, untrusted, uncaught, emergency, overtaken, routed, failed, refused, started, kept_mode,
  stopped, recentered, posed, handle-Handled,
}
use valera_control_tower.Gateway.Trace.{Call, handles, polls, step, run, emitted, run-All}

-- The event commands no motion of the neck.
abbrev pub IsStill : {F : Type 0} → OutputEvent F → Type 0
IsStill (neck_event t) = ⊥
IsStill _ = Unit

-- The emergency stop is latched, and no session is left.
pub record IsLatched {F : Type 0} (g : VrGateway F) : Type 0 where
  pub latched : g.state ≡ GatewayState.estop_latched
  pub no_session : g.active_session_id ≡ none

module _ {F : Type 0} where
  evaluate_deadline_latched :
      (g : VrGateway F) (now : ℕ) → IsLatched g → evaluate_deadline g now ≡ (g, [])
  unfolding evaluate_deadline handshake_expired watchdog_expired
  evaluate_deadline_latched g now v = ground arith

  not_started :
      (g : VrGateway F) (c : CommandEnvelope F)
      → IsLatched g
      → start_rejection g c c.payload ≡ none
      → ⊥
  unfolding start_rejection same_state
  not_started g c v h = ground arith

  not_accepted :
      (g : VrGateway F) (c : CommandEnvelope F) → IsLatched g → rejection_of g c ≡ none → ⊥
  unfolding rejection_of
  not_accepted g c v h = ground arith

module _ (fl : FloatOps) where
  open fl use {F}

  -- What stays true of a latched gateway.
  abbrev Stays : Outcome F → Type 0
  Stays r = IsLatched r.0 × All IsStill (emitted r.1)

  Handled-Stays :
      {g : VrGateway F} {now : ℕ} {x : Value F} {r : Outcome F}
      → Handled fl g now x r
      → IsLatched g
      → Stays r
  unfolding reject_invalid reject reject_untrusted handle_emergency_stop
  Handled-Stays {g} {now} {x} (untrusted e i) v = ground (arith, evaluate_deadline_latched g now v)
  Handled-Stays (uncaught e i b) v = (v, tt)
  Handled-Stays {g} {now} (emergency c d) v = ground arith
  Handled-Stays {g} {now} (overtaken c d code) v = ground (arith, evaluate_deadline_latched g now v)
  Handled-Stays (routed h w (failed e)) v = (v, tt)
  Handled-Stays (routed h w (refused c d code)) v = (v, (tt, tt))
  Handled-Stays {g} (routed h w (started c d e)) v = absurd (not_started g c v e)
  Handled-Stays {g} (routed h w (kept_mode c d e)) v = absurd (not_accepted g c v e)
  Handled-Stays {g} (routed h w (stopped c d e)) v = absurd (not_accepted g c v e)
  Handled-Stays {g} (routed h w (recentered c d q e s)) v = absurd (not_accepted g c v e)
  Handled-Stays {g} (routed h w (posed c d p q ec ep en e s)) v = absurd (not_accepted g c v e)

  step-IsLatched :
      (g : VrGateway F) (call : Call F)
      → IsLatched g
      → IsLatched (step fl g call).0 × All IsStill (step fl g call).1
  unfolding step poll
  step-IsLatched g (handles x now) v = Handled-Stays (handle-Handled fl g x now) v
  step-IsLatched g (polls now) v = rw (evaluate_deadline_latched g now v) (v, tt)

  -- A valid `emergency_stop` is obeyed in every state, before any deadline is looked at: it
  -- latches, ends the session, and its last event is the stop.
  handle_estop :
      (g : VrGateway F) (x : Value F) (c : CommandEnvelope F) (now : ℕ)
      → validate_command_envelope fl x ≡ ok c
      → c.command ≡ CommandName.emergency_stop
      → c.payload ≡ empty_payload
      → IsLatched (handle fl g x now).0
        × ((handle fl g x now).1
            ≡ ok (
                (if same_state g.state GatewayState.estop_latched
                  then []
                  else state_event (
                      gateway_state_event now GatewayState.estop_latched
                        (some c.session_id)
                        (some c.sequence))
                    ∷ [])
                ++ (stop_event (
                      safety_stop_event now StopReason.emergency_stop
                        (some c.session_id)
                        (some c.sequence))
                    ∷ [])))
  unfolding handle handle_valid handle_emergency_stop
  handle_estop g x c now h e p = ground arith

  -- From a valid `emergency_stop` on, whatever is called, the stop stays latched and no event
  -- moves the neck.
  pub run-IsLatched :
      (g : VrGateway F) (x : Value F) (c : CommandEnvelope F) (now : ℕ) (calls : List (Call F))
      → validate_command_envelope fl x ≡ ok c
      → c.command ≡ CommandName.emergency_stop
      → c.payload ≡ empty_payload
      → IsLatched (run fl g (handles x now ∷ calls)).0
        × All IsStill (run fl g (handles x now ∷ calls)).1
  unfolding run step
  run-IsLatched g x c now calls h e p =
      let (stop, events) = handle_estop g x c now h e p in
      let still : All IsStill (emitted (handle fl g x now).1) = rw events (ground arith) in
      let (end, rest) =
        run-All fl IsLatched IsStill step-IsLatched (handle fl g x now).0 calls stop in
      (end, All-append IsStill (emitted (handle fl g x now).1) _ still rest)
