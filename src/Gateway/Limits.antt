-- ===== src/Gateway/Limits.antt =====
-- robot/vr_gateway/gateway.py: the targets that it gives respect the limits of the neck.
use mathlib.Core.Path.{subst, subst₂}
use valera_control_tower.Base.{
  ℕ, ◌≡◌, sym, ◌∙◌, Bool, arith, inl, inr, List, [], ◌∷◌, ◌++◌, ok, All, All-append,
}
use valera_control_tower.Base.Float.{FloatOps, IsIeee}
use valera_control_tower.Messages.{
  CommandEnvelope, OutputEvent, neck_event, state_event, head_active, stop_event, rejected_event,
  Quaternion,
}
use valera_control_tower.Neck.{
  NeckControlConfig, NeckController, NeckTarget, update, recenter, check_config, neck_controller,
}
use valera_control_tower.Neck.Bounds.{IsWithin}
use valera_control_tower.Neck.Safety.{
  IsSafe, update-IsSafe, recenter-IsSafe, update_config, recenter_config, update_target,
  neck_controller-IsSafe, neck_controller_config,
}
use valera_control_tower.Messages.Validation.{Value}
use valera_control_tower.Gateway.{
  VrGateway, GatewayConfig, vr_gateway, evaluate_deadline, end_handshake, stop_motion, poll, accept,
  same_state,
}
use valera_control_tower.Gateway.Handlers.{
  Outcome, start_session, handle_session_stop, handle_emergency_stop, recenter_to, reject,
}
use valera_control_tower.Gateway.Handle.{reject_invalid}
use valera_control_tower.Gateway.Cases.{
  Handled, untrusted, uncaught, emergency, overtaken, routed, failed, refused, started, kept_mode,
  stopped, recentered, posed, handle-Handled,
}
use valera_control_tower.Gateway.Trace.{Call, handles, polls, step, run, emitted, run-All}
use valera_control_tower.Gateway.Latch.{IsStill}
use valera_control_tower.Gateway.Motion.{
  evaluate_deadline-IsStill, reject_untrusted-IsStill, pose_to_events,
}

module _ (fl : FloatOps) (c0 : NeckControlConfig fl.F) where
  open fl use {F}

  -- A target of the neck lies within the limits of the configuration.
  abbrev pub InLimits : OutputEvent F → Type 0
  InLimits (neck_event t) =
      IsWithin fl c0 (record { pan_degrees = t.pan_degrees; tilt_degrees = t.tilt_degrees })
  InLimits _ = Unit

  -- The controller is safe under this configuration.
  pub record HasNeck (n : NeckController F) : Type 0 where
    pub safe : IsSafe fl n
    pub configured : n.config ≡ c0

  still-InLimits : (events : List (OutputEvent F)) → All IsStill events → All InLimits events
  still-InLimits [] a = tt
  still-InLimits (state_event x ∷ events) a = (tt, still-InLimits events a.1)
  still-InLimits (neck_event x ∷ events) a = absurd a.0
  still-InLimits (stop_event x ∷ events) a = (tt, still-InLimits events a.1)
  still-InLimits (rejected_event x ∷ events) a = (tt, still-InLimits events a.1)

  evaluate_deadline_neck :
      (g : VrGateway F) (now : ℕ) → (evaluate_deadline g now).0.neck_controller ≡ g.neck_controller
  unfolding evaluate_deadline end_handshake stop_motion
  evaluate_deadline_neck g now = ground arith

  -- What a call keeps of the controller and gives of targets.
  abbrev pub Respects : Outcome F → Type 0
  Respects r = HasNeck r.0.neck_controller × All InLimits (emitted r.1)

  after_deadline_neck :
      (g : VrGateway F) (now : ℕ) (events : List (OutputEvent F))
      → HasNeck g.neck_controller
      → All IsStill events
      → Respects ((evaluate_deadline g now).0, ok ((evaluate_deadline g now).1 ++ events))
  after_deadline_neck g now events v s = (
    subst HasNeck (sym (evaluate_deadline_neck g now)) v,
    still-InLimits _
        (All-append IsStill (evaluate_deadline g now).1 events (evaluate_deadline-IsStill g now) s),
  )

module _ (fl : FloatOps) (o : IsIeee fl) (c0 : NeckControlConfig fl.F) where
  open fl use {F}

  update-HasNeck :
      (n : NeckController F) (q : Quaternion F) (now : ℕ)
      → HasNeck fl c0 n
      → HasNeck fl c0 (update fl n q now).0
  update-HasNeck n q now v = record {
    safe = update-IsSafe fl o n q now v.safe;
    configured = update_config fl n q now ∙ v.configured;
  }

  recenter-HasNeck :
      (n : NeckController F) (q : Quaternion F) (now : ℕ) (preserve : Bool)
      → HasNeck fl c0 n
      → HasNeck fl c0 (recenter fl n q now preserve)
  recenter-HasNeck n q now preserve v = record {
    safe = recenter-IsSafe fl n q now preserve v.safe;
    configured = recenter_config fl n q now preserve ∙ v.configured;
  }

  update-IsWithin :
      (n : NeckController F) (q : Quaternion F) (now : ℕ) (t : NeckTarget F)
      → HasNeck fl c0 n
      → (update fl n q now).1 ≡ ok t
      → IsWithin fl c0 t
  update-IsWithin n q now t v e =
      let w = update-HasNeck n q now v in
      subst₂ (IsWithin fl) w.configured (update_target fl n q now t e) w.safe.within

  start_session-IsStill :
      (g : VrGateway F) (c : CommandEnvelope F) (now : ℕ)
      → ((start_session g c now).0.neck_controller ≡ g.neck_controller)
        × All IsStill (emitted (start_session g c now).1)
  unfolding start_session
  start_session-IsStill g c now = ground arith

  handle_session_stop-IsStill :
      (g : VrGateway F) (c : CommandEnvelope F) (now : ℕ)
      → ((handle_session_stop g c now).0.neck_controller ≡ g.neck_controller)
        × All IsStill (emitted (handle_session_stop g c now).1)
  unfolding handle_session_stop
  handle_session_stop-IsStill g c now = ground arith

  handle_emergency_stop-IsStill :
      (g : VrGateway F) (c : CommandEnvelope F) (now : ℕ)
      → ((handle_emergency_stop g c now).0.neck_controller ≡ g.neck_controller)
        × All IsStill (emitted (handle_emergency_stop g c now).1)
  unfolding handle_emergency_stop
  handle_emergency_stop-IsStill g c now = ground arith

  recenter_to-IsStill :
      (g : VrGateway F) (c : CommandEnvelope F) (q : Quaternion F) (now : ℕ)
      → ((recenter_to fl g c q now).0.neck_controller
          ≡ recenter fl g.neck_controller q now (same_state g.state head_active))
        × All IsStill (emitted (recenter_to fl g c q now).1)
  unfolding recenter_to
  recenter_to-IsStill g c q now = ground arith

  still-Respects :
      (r : Outcome F) (n : NeckController F)
      → HasNeck fl c0 n
      → (r.0.neck_controller ≡ n) × All IsStill (emitted r.1)
      → Respects fl c0 r
  still-Respects r n v (e, s) = (subst (HasNeck fl c0) (sym e) v, still-InLimits fl c0 _ s)

  pub Handled-Respects :
      {g : VrGateway F} {now : ℕ} {x : Value F} {r : Outcome F}
      → Handled fl g now x r
      → HasNeck fl c0 g.neck_controller
      → Respects fl c0 r
  unfolding reject_invalid reject accept
  Handled-Respects {g} {now} {x} (untrusted e i) v =
      after_deadline_neck fl c0 g now _ v (reject_untrusted-IsStill x now)
  Handled-Respects (uncaught e i b) v = (v, tt)
  Handled-Respects {g} {now} (emergency c d) v =
      still-Respects (handle_emergency_stop g c now) _ v (handle_emergency_stop-IsStill g c now)
  Handled-Respects {g} {now} (overtaken c d code) v = after_deadline_neck fl c0 g now _ v (tt, tt)
  Handled-Respects (routed h w (failed e)) v = (v, tt)
  Handled-Respects (routed h w (refused c d code)) v = (v, (tt, tt))
  Handled-Respects {g} {now} (routed h w (started c d e)) v =
      still-Respects (start_session g c now) _ v (start_session-IsStill g c now)
  Handled-Respects (routed h w (kept_mode c d e)) v = (v, tt)
  Handled-Respects {g} {now} (routed h w (stopped c d e)) v =
      still-Respects (handle_session_stop g c now) _ v (handle_session_stop-IsStill g c now)
  Handled-Respects {g} {now} (routed h w (recentered c d q e s)) v =
      still-Respects (recenter_to fl g c q now) _ (recenter-HasNeck _ q now _ v)
        (recenter_to-IsStill g c q now)
  Handled-Respects {g} {now} (routed h w (posed c d p q ec ep en e s)) v =
      elim (pose_to_events fl g c q now) [
        | inl (t, u, k) ↦
            rw k (update-HasNeck g.neck_controller q now v, (update-IsWithin _ q now t v u, tt))
        | inr (x, k) ↦ rw k (update-HasNeck g.neck_controller q now v, tt)
      ]

  pub step-Respects :
      (g : VrGateway F) (call : Call F)
      → HasNeck fl c0 g.neck_controller
      → HasNeck fl c0 (step fl g call).0.neck_controller × All (InLimits fl c0) (step fl g call).1
  unfolding step poll
  step-Respects g (handles x now) v = Handled-Respects (handle-Handled fl g x now) v
  step-Respects g (polls now) v = (
    subst (HasNeck fl c0) (sym (evaluate_deadline_neck fl c0 g now)) v,
    still-InLimits fl c0 _ (evaluate_deadline-IsStill g now),
  )

  -- Along any calls on a gateway built from a configuration that passes its checks, every target
  -- that is given lies within the mechanical limits of that configuration.
  pub run-InLimits :
      (c : NeckControlConfig F) (n : NeckController F) (config : GatewayConfig)
      (calls : List (Call F))
      → check_config fl c ≡ ok c0
      → neck_controller fl c0 ≡ ok n
      → All (InLimits fl c0) (run fl (vr_gateway n config) calls).1
  unfolding vr_gateway
  run-InLimits c n config calls checked built =
      (run-All fl (λ g. HasNeck fl c0 g.neck_controller) (InLimits fl c0) step-Respects
        (vr_gateway n config) calls
        (record {
          safe = neck_controller-IsSafe fl c c0 n checked built;
          configured = neck_controller_config fl c0 n built;
        })).1
