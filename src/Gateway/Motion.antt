-- ===== src/Gateway/Motion.antt =====
-- robot/vr_gateway/gateway.py: what has to hold before an event moves the neck, and where it moves.
use valera_control_tower.Base.{
  ℕ, ◌+◌, ◌<◌, ◌≡◌, refl, false, arith, Option, none, some, List, [], ◌∷◌, ok, raised, All,
  All-append, Exception, ◌⊎◌, inl, inr, text_eq_iff, Option-cases, Result-cases,
}
use valera_control_tower.Base.Float.{FloatOps}
use valera_control_tower.Messages.{
  head_active, CommandEnvelope, OutputEvent, neck_event, state_event, stop_event, rejected_event,
  invalid_payload, Quaternion,
}
use valera_control_tower.Messages.Validation.{Value, envelope_value}
use valera_control_tower.Neck.{NeckTarget, update}
use valera_control_tower.Gateway.{
  VrGateway, evaluate_deadline, watchdog_expired, end_handshake, stop_motion, accept,
}
use valera_control_tower.Gateway.Handlers.{
  Outcome, start_session, handle_session_stop, handle_emergency_stop, rejection_of, recenter_to,
  pose_to, reject, neck_target_event, reject_untrusted,
}
use valera_control_tower.Gateway.Handle.{handle, reject_invalid}
use valera_control_tower.Gateway.Cases.{
  Handled, untrusted, uncaught, emergency, overtaken, routed, failed, refused, started, kept_mode,
  stopped, recentered, posed, handle-Handled,
}
use valera_control_tower.Gateway.Invariant.{IsWellFormed}
use valera_control_tower.Gateway.Trace.{emitted}
use valera_control_tower.Gateway.Latch.{IsStill}

-- `n` exceeds what the session saw last.
abbrev Exceeds : Option ℕ → ℕ → Type 0
Exceeds none n = ⊥
Exceeds (some last) n = last < n

-- `now` is closer than the timeout to the last packet.
abbrev IsFresh : Option ℕ → ℕ → ℕ → Type 0
IsFresh none timeout now = ⊥
IsFresh (some last) timeout now = now < last + timeout

-- The gateway may give this event at this time: a target of the neck needs an active session, a
-- command of that session with a new sequence number, and a watchdog that has not run out.
abbrev pub IsAllowed : {F : Type 0} → VrGateway F → ℕ → OutputEvent F → Type 0
IsAllowed g now (neck_event t) =
    (g.state ≡ head_active)
    × (g.active_session_id ≡ some t.session_id)
    × Exceeds g.last_sequence t.sequence
    × IsFresh g.last_valid_packet_received_monotonic_ns g.config.motion_watchdog_timeout_ns now
    × (t.gateway_monotonic_ns ≡ now)
IsAllowed g now _ = Unit

module _ {F : Type 0} where
  pub evaluate_deadline-IsStill :
      (g : VrGateway F) (now : ℕ) → All IsStill (evaluate_deadline g now).1
  unfolding evaluate_deadline end_handshake stop_motion
  evaluate_deadline-IsStill g now = ground arith

  pub reject_untrusted-IsStill :
      (x : Value F) (now : ℕ) → All IsStill (reject_untrusted x invalid_payload now ∷ [])
  unfolding reject_untrusted
  reject_untrusted-IsStill (envelope_value a b c d e f) now = (tt, tt)
  reject_untrusted-IsStill _ now = (tt, tt)

  still-IsAllowed :
      (g : VrGateway F) (now : ℕ) (events : List (OutputEvent F))
      → All IsStill events
      → All (IsAllowed g now) events
  still-IsAllowed g now [] a = tt
  still-IsAllowed g now (state_event x ∷ events) a = (tt, still-IsAllowed g now events a.1)
  still-IsAllowed g now (neck_event x ∷ events) a = absurd a.0
  still-IsAllowed g now (stop_event x ∷ events) a = (tt, still-IsAllowed g now events a.1)
  still-IsAllowed g now (rejected_event x ∷ events) a = (tt, still-IsAllowed g now events a.1)

  -- A pose that passes the guards in time may move the neck.
  pose-IsAllowed :
      (g : VrGateway F) (c : CommandEnvelope F) (now : ℕ)
      → IsWellFormed g
      → watchdog_expired g now ≡ false
      → rejection_of g c ≡ none
      → g.state ≡ head_active
      → (g.active_session_id ≡ some c.session_id)
        × Exceeds g.last_sequence c.sequence
        × IsFresh g.last_valid_packet_received_monotonic_ns g.config.motion_watchdog_timeout_ns now
  unfolding watchdog_expired rejection_of
  pose-IsAllowed g c now v w e s = elim (Option-cases g.active_session_id) [
    | inl none_active ↦ ground arith
    | inr (active, is_active) ↦ ground (arith, text_eq_iff c.session_id active)
  ]

module _ (fl : FloatOps) where
  open fl use {F}

  pub pose_to_events :
      (g : VrGateway F) (c : CommandEnvelope F) (q : Quaternion F) (now : ℕ)
      → ((t : NeckTarget F) × ((update fl g.neck_controller q now).1 ≡ ok t)
          × (pose_to fl g c q now ≡ (
            accept (record g { neck_controller = (update fl g.neck_controller q now).0 }) c now,
            ok (neck_event (neck_target_event fl c t now) ∷ []),
          )))
        ⊎ ((e : Exception) × (pose_to fl g c q now
              ≡ (record g { neck_controller = (update fl g.neck_controller q now).0 }, raised e)))
  unfolding pose_to
  pose_to_events g c q now = elim (Result-cases (update fl g.neck_controller q now).1) [
    | inl (t, e) ↦ inl (t, e, rw (e, pose_to))
    | inr (x, e) ↦ inr (x, rw (e, pose_to))
  ]

  Handled-IsAllowed :
      {g : VrGateway F} {now : ℕ} {x : Value F} {r : Outcome F}
      → Handled fl g now x r
      → IsWellFormed g
      → All (IsAllowed g now) (emitted r.1)
  unfolding reject_invalid reject handle_emergency_stop start_session handle_session_stop
      recenter_to
  Handled-IsAllowed {g} {now} {x} (untrusted e i) v = still-IsAllowed g now _ (
      All-append IsStill (evaluate_deadline g now).1 _ (evaluate_deadline-IsStill g now)
        (reject_untrusted-IsStill x now))
  Handled-IsAllowed (uncaught e i b) v = tt
  Handled-IsAllowed {g} {now} (emergency c d) v = ground arith
  Handled-IsAllowed {g} {now} (overtaken c d code) v =
      still-IsAllowed g now _ (
        All-append IsStill (evaluate_deadline g now).1 _ (evaluate_deadline-IsStill g now) (tt, tt))
  Handled-IsAllowed (routed h w (failed e)) v = tt
  Handled-IsAllowed (routed h w (refused c d code)) v = (tt, tt)
  Handled-IsAllowed {g} {now} (routed h w (started c d e)) v = ground arith
  Handled-IsAllowed (routed h w (kept_mode c d e)) v = tt
  Handled-IsAllowed {g} {now} (routed h w (stopped c d e)) v = ground arith
  Handled-IsAllowed {g} {now} (routed h w (recentered c d q e s)) v = ground arith
  Handled-IsAllowed {g} {now} (routed h w (posed c d p q ec ep en e s)) v =
      elim (pose_to_events g c q now) [
        | inl (t, u, k) ↦
            let a = pose-IsAllowed g c now v w e s in rw k ((s, a.0, a.1, a.2, refl), tt)
        | inr (x, k) ↦ rw k tt
      ]

  -- On every call of `handle`, a target of the neck is given only in an active session, for a new
  -- sequence number of that session, before the watchdog runs out, with the time of the call.
  pub handle-IsAllowed :
      (g : VrGateway F) (x : Value F) (now : ℕ)
      → IsWellFormed g
      → All (IsAllowed g now) (emitted (handle fl g x now).1)
  handle-IsAllowed g x now v = Handled-IsAllowed (handle-Handled fl g x now) v
