-- ===== src/Gateway/Sessions.antt =====
-- robot/vr_gateway/gateway.py: sessions are not reused, sequences grow, rejections change nothing.
use valera_control_tower.Base.{
  ℕ, ◌≤◌, ◌≡◌, refl, ap, ◌⊎◌, inl, inr, false, arith, Option, none, some, List, [], ◌∷◌, ◌++◌, Text,
  member, ok, ok-injective,
}
use valera_control_tower.Base.Float.{FloatOps}
use valera_control_tower.Messages.{
  CommandEnvelope, OutputEvent, rejected_event, CommandRejectedEvent, Quaternion,
}
use valera_control_tower.Messages.Validation.{Value}
use valera_control_tower.Gateway.{VrGateway, evaluate_deadline}
use valera_control_tower.Gateway.Handlers.{
  Outcome, start_session, handle_session_stop, handle_emergency_stop, recenter_to, pose_to,
}
use valera_control_tower.Gateway.Handle.{handle, reject_invalid}
use valera_control_tower.Gateway.Cases.{
  Handled, untrusted, uncaught, emergency, overtaken, routed, failed, refused, started, kept_mode,
  stopped, recentered, posed, handle-Handled, evaluate_deadline-cases,
}

-- What a call that passes the guards may do to the session fields.
abbrev NotBelow : Option ℕ → Option ℕ → Type 0
NotBelow (some a) (some b) = a ≤ b
NotBelow _ _ = ⊥

module _ {F : Type 0} where
  -- Within a session the last sequence and the last timestamp do not fall.
  pub record Advances (g h : VrGateway F) : Type 0 where
    pub sequence : NotBelow g.last_sequence h.last_sequence
    pub timestamp : NotBelow g.last_timestamp_ms h.last_timestamp_ms

  abbrev Continued : VrGateway F → VrGateway F → Option Text → Type 0
  Continued g h none = Unit
  Continued g h (some s) =
      ((g.active_session_id ≡ some s) × Advances g h) ⊎ (member s g.used_session_ids ≡ false)

  -- The session of `h` is that of `g`, further on, or one that was never used before.
  abbrev pub Continues : VrGateway F → VrGateway F → Type 0
  Continues g h = Continued g h h.active_session_id

  no_singleton :
      (a : OutputEvent F) (as' : List (OutputEvent F)) (r e : OutputEvent F)
      → (a ∷ as') ++ (r ∷ []) ≡ e ∷ []
      → ⊥
  no_singleton a [] r e h = cc
  no_singleton a (b ∷ bs) r e h = cc

  -- An event list that ends in a stop is no single rejection.
  stop_only :
      (g : VrGateway F) (c : CommandEnvelope F) (now : ℕ) (e : CommandRejectedEvent)
      → (handle_session_stop g c now).1 ≡ ok (rejected_event e ∷ [])
      → ⊥
  unfolding handle_session_stop
  stop_only g c now e h = ground arith

  estop_only :
      (g : VrGateway F) (c : CommandEnvelope F) (now : ℕ) (e : CommandRejectedEvent)
      → (handle_emergency_stop g c now).1 ≡ ok (rejected_event e ∷ [])
      → ⊥
  unfolding handle_emergency_stop
  estop_only g c now e h = ground arith

  start_only :
      (g : VrGateway F) (c : CommandEnvelope F) (now : ℕ) (e : CommandRejectedEvent)
      → (start_session g c now).1 ≡ ok (rejected_event e ∷ [])
      → ⊥
  unfolding start_session
  start_only g c now e h = ground arith

module _ (fl : FloatOps) where
  open fl use {F}

  rejection_only :
      (g : VrGateway F) (now : ℕ) (e : OutputEvent F) (r : OutputEvent F)
      → (evaluate_deadline g now).1 ++ (r ∷ []) ≡ e ∷ []
      → (evaluate_deadline g now).0 ≡ g
  rejection_only g now e r h = elim (evaluate_deadline-cases fl g now) [
    | inl (a, b, k) ↦ ap (λ p. p.0) k
    | inr (event, events, k) ↦ absurd (no_singleton event events r e (rw k at h))
  ]

  recenter_only :
      (g : VrGateway F) (c : CommandEnvelope F) (q : Quaternion F) (now : ℕ)
      (e : CommandRejectedEvent)
      → (recenter_to fl g c q now).1 ≡ ok (rejected_event e ∷ [])
      → ⊥
  unfolding recenter_to
  recenter_only g c q now e h = ground arith

  pose_only :
      (g : VrGateway F) (c : CommandEnvelope F) (q : Quaternion F) (now : ℕ)
      (e : CommandRejectedEvent)
      → (pose_to fl g c q now).1 ≡ ok (rejected_event e ∷ [])
      → ⊥
  unfolding pose_to
  pose_only g c q now e h = ground arith

  Handled-rejected :
      {g : VrGateway F} {now : ℕ} {x : Value F} {r : Outcome F} (e : CommandRejectedEvent)
      → Handled fl g now x r
      → r.1 ≡ ok (rejected_event e ∷ [])
      → r.0 ≡ g
  unfolding reject_invalid
  Handled-rejected {g} {now} {x} e (untrusted u i) k = rejection_only g now _ _ (ok-injective k)
  Handled-rejected e (uncaught u i b) k = refl
  Handled-rejected {g} {now} e (emergency c d) k = absurd (estop_only g c now e k)
  Handled-rejected {g} {now} e (overtaken c d code) k = rejection_only g now _ _ (ok-injective k)
  Handled-rejected e (routed h w (failed x)) k = refl
  Handled-rejected e (routed h w (refused c d code)) k = refl
  Handled-rejected {g} {now} e (routed h w (started c d s)) k = absurd (start_only g c now e k)
  Handled-rejected e (routed h w (kept_mode c d s)) k = cc
  Handled-rejected {g} {now} e (routed h w (stopped c d s)) k = absurd (stop_only g c now e k)
  Handled-rejected {g} {now} e (routed h w (recentered c d q s t)) k =
      absurd (recenter_only g c q now e k)
  Handled-rejected {g} {now} e (routed h w (posed c d p q ec ep en s t)) k =
      absurd (pose_only g c q now e k)

  -- A call of `handle` that gives a single rejection leaves the gateway as it was.
  pub handle-rejected :
      (g : VrGateway F) (x : Value F) (now : ℕ) (e : CommandRejectedEvent)
      → (handle fl g x now).1 ≡ ok (rejected_event e ∷ [])
      → (handle fl g x now).0 ≡ g
  handle-rejected g x now e k = Handled-rejected e (handle-Handled fl g x now) k
