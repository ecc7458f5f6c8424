-- ===== src/Adapter/Stamped.antt =====
-- robot/vr_gateway/gateway.py: every event for a decoded command passes the checks of its encoder on
-- the time, the session and the sequence.
use valera_control_tower.Base.{
  ℕ, ◌≡◌, sym, ap, ◌∙◌, arith, ◌⊎◌, inl, inr, true, false, Bool-cases, Option-cases, Option, none,
  some, Text, List, [], ◌∷◌, All, All-append, leb, ok, ok-injective, raised, Exception, ◌++◌,
  text_eq_iff,
}
use valera_control_tower.Base.Float.{FloatOps}
use valera_control_tower.Messages.{
  head_active, idle, awaiting_recenter, safe_stopped, GatewayState, CommandEnvelope, OutputEvent,
  Quaternion, RejectionCode, StopReason, invalid_payload,
}
use valera_control_tower.Messages.Validation.{Value, other_value, validate_command_envelope}
use valera_control_tower.Gateway.{
  VrGateway, same_state, accept, evaluate_deadline, end_handshake, stop_motion, transition,
  handshake_expired, watchdog_expired, invalidate,
}
use valera_control_tower.Gateway.Handlers.{
  Outcome, start_session, handle_session_stop, handle_emergency_stop, rejection_of, recenter_to,
  pose_to, reject, reject_untrusted,
}
use valera_control_tower.Gateway.Handle.{handle, reject_invalid}
use valera_control_tower.Gateway.Cases.{
  Handled, untrusted, uncaught, emergency, overtaken, routed, failed, refused, started, kept_mode,
  stopped, recentered, posed, handle-Handled,
}
use valera_control_tower.Gateway.Trace.{emitted}
use valera_control_tower.Gateway.Motion.{pose_to_events}
use valera_control_tower.Wire.Encode.{validate_correlation}
use valera_control_tower.Wire.{max_int64}
use valera_control_tower.Wire.Accepted.{IsContract}
use valera_control_tower.Adapter.Stamps.{
  Correlates, IsStamped, IsContract-Correlates, none-Correlates, state-IsStamped, stop-IsStamped,
  rejected-IsStamped, neck-IsStamped,
}

-- The object that the adapter hands over: a decoded command, or the one for a text that is none.
abbrev pub IsSent : (fl : FloatOps) → Value fl.F → Type 0
IsSent fl x =
    (x ≡ other_value)
    ⊎ ((c : CommandEnvelope fl.F) × IsContract c × (validate_command_envelope fl x ≡ ok c))

-- The session fields of the gateway are what the encoders take.
abbrev pub IsCorrelated : {F : Type 0} → VrGateway F → Type 0
IsCorrelated g = Correlates g.active_session_id g.last_sequence

-- The command that an object of the adapter holds is one of the wire contract.
IsSent-IsContract :
    (fl : FloatOps) (x : Value fl.F) (c : CommandEnvelope fl.F)
    → validate_command_envelope fl x ≡ ok c
    → IsSent fl x
    → IsContract c
unfolding validate_command_envelope
IsSent-IsContract fl x c d (inl other) = cc (ap (validate_command_envelope fl) (sym other) ∙ d)
IsSent-IsContract fl x c d (inr (c', k, e)) = rw (ok-injective (sym d ∙ e)) k

snoc-IsStamped :
    {F : Type 0} (events : List (OutputEvent F)) (event : OutputEvent F)
    → All IsStamped events
    → IsStamped event
    → All IsStamped (events ++ event ∷ [])
snoc-IsStamped events event a b = All-append IsStamped events (event ∷ []) a (b, tt)

module _ {F : Type 0} (now : ℕ) (in_time : leb now max_int64 ≡ true) where
  -- What a call leaves and gives.
  abbrev pub IsGood : Outcome F → Type 0
  IsGood r = IsCorrelated r.0 × All IsStamped (emitted r.1)

  transition-IsStamped :
      (g : VrGateway F) (state : GatewayState) (s : Option Text) (n : Option ℕ)
      → Correlates s n
      → All IsStamped (transition g state s n now).1
  unfolding transition
  transition-IsStamped g state s n k = elim (Bool-cases (same_state g.state state)) [
    | inl b ↦ rw (b, transition) tt
    | inr b ↦ rw (b, transition) (state-IsStamped F now in_time state s n k, tt)
  ]

  pub evaluate_deadline-IsGood :
      (g : VrGateway F)
      → IsCorrelated g
      → IsGood ((evaluate_deadline g now).0, ok (evaluate_deadline g now).1)
  unfolding evaluate_deadline end_handshake stop_motion invalidate
  evaluate_deadline-IsGood g k =
      let moved = λ (state : GatewayState).
        transition-IsStamped g state g.active_session_id g.last_sequence k in
      elim (Bool-cases (handshake_expired g now)) [
        | inl h ↦ rw (h, evaluate_deadline) (none-Correlates, moved idle)
        | inr h ↦ elim (Bool-cases (watchdog_expired g now)) [
          | inl w ↦
              rw (h, evaluate_deadline)
                (rw w (
                  none-Correlates,
                  snoc-IsStamped _ _ (moved safe_stopped)
                      (stop-IsStamped F now in_time StopReason.watchdog _ _ k),
                ))
          | inr w ↦ rw (h, evaluate_deadline) (rw w (k, tt))
        ]
      ]

  transition-IsCorrelated :
      (g : VrGateway F) (state : GatewayState) (s : Option Text) (n : Option ℕ)
      → IsCorrelated g
      → IsCorrelated (transition g state s n now).0
  unfolding transition
  transition-IsCorrelated g state s n k = elim (Bool-cases (same_state g.state state)) [
    | inl b ↦ rw (b, transition) k
    | inr b ↦ rw (b, transition) k
  ]

  -- A command that passes the guards is of the session that is open.
  same_session :
      (g : VrGateway F) (c : CommandEnvelope F)
      → rejection_of g c ≡ none
      → g.active_session_id ≡ some c.session_id
  unfolding rejection_of
  same_session g c e = elim (Option-cases g.active_session_id) [
    | inl none_active ↦ ground arith
    | inr (active, is_active) ↦ ground (arith, text_eq_iff c.session_id active)
  ]

  accept-IsCorrelated :
      (g : VrGateway F) (c : CommandEnvelope F)
      → IsContract c
      → rejection_of g c ≡ none
      → IsCorrelated (accept g c now)
  unfolding accept
  accept-IsCorrelated g c k e =
      ap (λ s. validate_correlation s (some c.sequence) false) (same_session g c e)
      ∙ (IsContract-Correlates c k).0

  start_session-IsGood :
      (g : VrGateway F) (c : CommandEnvelope F) → IsContract c → IsGood (start_session g c now)
  unfolding start_session
  start_session-IsGood g c k =
      let valid = (IsContract-Correlates c k).0 in
      (
        transition-IsCorrelated _ awaiting_recenter _ _ valid,
        transition-IsStamped _ awaiting_recenter _ _ valid,
      )

  handle_session_stop-IsGood :
      (g : VrGateway F) (c : CommandEnvelope F)
      → IsContract c
      → IsGood (handle_session_stop g c now)
  unfolding handle_session_stop invalidate
  handle_session_stop-IsGood g c k =
      let valid = (IsContract-Correlates c k).0 in
      (
        none-Correlates,
        snoc-IsStamped _ _ (transition-IsStamped _ idle _ _ valid)
            (stop-IsStamped F now in_time StopReason.session_stopped _ _ valid),
      )

  handle_emergency_stop-IsGood :
      (g : VrGateway F) (c : CommandEnvelope F)
      → IsContract c
      → IsGood (handle_emergency_stop g c now)
  unfolding handle_emergency_stop invalidate
  handle_emergency_stop-IsGood g c k =
      let valid = (IsContract-Correlates c k).0 in
      (
        none-Correlates,
        snoc-IsStamped _ _ (transition-IsStamped _ GatewayState.estop_latched _ _ valid)
            (stop-IsStamped F now in_time StopReason.emergency_stop _ _ valid),
      )

  reject-IsStamped :
      (c : CommandEnvelope F) (code : RejectionCode) → IsContract c → IsStamped (reject c code now)
  unfolding reject
  reject-IsStamped c code k =
      rejected-IsStamped F now in_time code _ _ (IsContract-Correlates c k).0

module _ (fl : FloatOps) (now : ℕ) (in_time : leb now max_int64 ≡ true) where
  open fl use {F}

  recenter_to-IsGood :
      (g : VrGateway F) (c : CommandEnvelope F) (q : Quaternion F)
      → IsContract c
      → rejection_of g c ≡ none
      → IsGood now in_time (recenter_to fl g c q now)
  unfolding recenter_to accept
  recenter_to-IsGood g c q k e =
      let valid = (IsContract-Correlates c k).0 in
      (
        transition-IsCorrelated now in_time _ head_active _ _
            (accept-IsCorrelated now in_time g c k e),
        transition-IsStamped now in_time _ head_active _ _ valid,
      )

  pose_to-IsGood :
      (g : VrGateway F) (c : CommandEnvelope F) (q : Quaternion F)
      → IsCorrelated g
      → IsContract c
      → rejection_of g c ≡ none
      → IsGood now in_time (pose_to fl g c q now)
  unfolding accept
  pose_to-IsGood g c q v k e = elim (pose_to_events fl g c q now) [
    | inl (t, u, h) ↦ rw h (
      accept-IsCorrelated now in_time g c k e,
      (
        neck-IsStamped F now in_time c.session_id c.sequence t.pan_degrees t.tilt_degrees false
            (IsContract-Correlates c k).1,
        tt,
      ),
    )
    | inr (x, h) ↦ rw h (v, tt)
  ]

  reject_untrusted-IsStamped :
      (x : Value F) (e : Exception)
      → validate_command_envelope fl x ≡ raised e
      → IsSent fl x
      → IsStamped (reject_untrusted x invalid_payload now)
  unfolding reject_untrusted
  reject_untrusted-IsStamped x e i (inl other) =
      rw other (rejected-IsStamped F now in_time invalid_payload none none none-Correlates)
  reject_untrusted-IsStamped x e i (inr (c, k, valid)) = cc (sym i ∙ valid)

  -- A call with an object of the adapter keeps the gateway correlated and gives stamped events.
  Handled-IsGood :
      {g : VrGateway F} {x : Value F} {r : Outcome F}
      → Handled fl g now x r
      → IsSent fl x
      → IsCorrelated g
      → IsGood now in_time r
  unfolding reject_invalid
  Handled-IsGood {g} {x} (untrusted e i) s v =
      let (kept, stamped) = evaluate_deadline-IsGood now in_time g v in
      (
        kept,
        snoc-IsStamped (evaluate_deadline g now).1 (reject_untrusted x invalid_payload now) stamped
            (reject_untrusted-IsStamped x e i s),
      )
  Handled-IsGood (uncaught e i b) s v = (v, tt)
  Handled-IsGood {g} {x} (emergency c d) s v =
      handle_emergency_stop-IsGood now in_time g c (IsSent-IsContract fl x c d s)
  Handled-IsGood {g} {x} (overtaken c d code) s v =
      let (kept, stamped) = evaluate_deadline-IsGood now in_time g v in
      (
        kept,
        snoc-IsStamped (evaluate_deadline g now).1 (reject c code now) stamped
            (reject-IsStamped now in_time c code (IsSent-IsContract fl x c d s)),
      )
  Handled-IsGood (routed h w (failed e)) s v = (v, tt)
  Handled-IsGood {g} {x} (routed h w (refused c d code)) s v =
      (v, (reject-IsStamped now in_time c code (IsSent-IsContract fl x c d s), tt))
  Handled-IsGood {g} {x} (routed h w (started c d e)) s v =
      start_session-IsGood now in_time g c (IsSent-IsContract fl x c d s)
  Handled-IsGood {g} {x} (routed h w (kept_mode c d e)) s v =
      (accept-IsCorrelated now in_time g c (IsSent-IsContract fl x c d s) e, tt)
  Handled-IsGood {g} {x} (routed h w (stopped c d e)) s v =
      handle_session_stop-IsGood now in_time g c (IsSent-IsContract fl x c d s)
  Handled-IsGood {g} {x} (routed h w (recentered c d q e t)) s v =
      recenter_to-IsGood g c q (IsSent-IsContract fl x c d s) e
  Handled-IsGood {g} {x} (routed h w (posed c d p q ec ep en e t)) s v =
      pose_to-IsGood g c q v (IsSent-IsContract fl x c d s) e

  pub handle-IsGood :
      (g : VrGateway F) (x : Value F)
      → IsSent fl x
      → IsCorrelated g
      → IsGood now in_time (handle fl g x now)
  handle-IsGood g x s v = Handled-IsGood (handle-Handled fl g x now) s v
