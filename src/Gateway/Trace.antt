-- ===== src/Gateway/Trace.antt =====
-- robot/vr_gateway/gateway.py: sequences of calls of `handle` and `poll`, in the order in which a
-- caller makes them. A call that raises leaves its gateway behind and gives no events.
use valera_control_tower.Base.{ℕ, List, [], ◌∷◌, ◌++◌, Result, ok, raised, All, All-append}
use valera_control_tower.Base.Float.{FloatOps}
use valera_control_tower.Messages.{OutputEvent}
use valera_control_tower.Messages.Validation.{Value}
use valera_control_tower.Neck.{NeckController}
use valera_control_tower.Gateway.{VrGateway, GatewayConfig, vr_gateway, poll}
use valera_control_tower.Gateway.Handle.{handle}
use valera_control_tower.Gateway.Invariant.{
  IsWellFormed, handle-IsWellFormed, evaluate_deadline-IsWellFormed, vr_gateway-IsWellFormed,
}

pub data Call (F : Type 0) : Type 0 where
  handles : Value F → ℕ → Call F
  polls : ℕ → Call F

abbrev pub emitted : {F : Type 0} → Result (List (OutputEvent F)) → List (OutputEvent F)
emitted (ok events) = events
emitted (raised e) = []

module _ (fl : FloatOps) where
  open fl use {F}

  unfoldable pub step : VrGateway F → Call F → VrGateway F × List (OutputEvent F)
  step g (handles x now) = let (g', result) = handle fl g x now in (g', emitted result)
  step g (polls now) = poll g now

  -- The gateway after all calls, and all events in their order.
  unfoldable pub run : VrGateway F → List (Call F) → VrGateway F × List (OutputEvent F)
  run g [] = (g, [])
  run g (call ∷ calls) =
      let (g', events) = step g call in let (g'', rest) = run g' calls in (g'', events ++ rest)

  step-IsWellFormed :
      (g : VrGateway F) (call : Call F) → IsWellFormed g → IsWellFormed (step g call).0
  unfolding step poll
  step-IsWellFormed g (handles x now) v = handle-IsWellFormed fl g x now v
  step-IsWellFormed g (polls now) v = evaluate_deadline-IsWellFormed g now v

  pub run-IsWellFormed :
      (g : VrGateway F) (calls : List (Call F)) → IsWellFormed g → IsWellFormed (run g calls).0
  unfolding run
  run-IsWellFormed g [] v = v
  run-IsWellFormed g (call ∷ calls) v =
      run-IsWellFormed (step g call).0 calls (step-IsWellFormed g call v)

  -- After any calls on a new gateway its session fields fit its state.
  pub run-vr_gateway-IsWellFormed :
      (n : NeckController F) (c : GatewayConfig) (calls : List (Call F))
      → IsWellFormed (run (vr_gateway n c) calls).0
  run-vr_gateway-IsWellFormed n c calls =
      run-IsWellFormed (vr_gateway n c) calls (vr_gateway-IsWellFormed n c)

  -- An invariant of the calls, with what it says of the events of a call, holds along a run.
  pub run-All {ℓ κ} :
      (Inv : VrGateway F → Type ℓ) (P : OutputEvent F → Type κ)
      → ((g : VrGateway F) (call : Call F) → Inv g → Inv (step g call).0 × All P (step g call).1)
      → (g : VrGateway F) (calls : List (Call F)) → Inv g
      → Inv (run g calls).0 × All P (run g calls).1
  unfolding run
  run-All Inv P keep g [] v = (v, tt)
  run-All Inv P keep g (call ∷ calls) v =
      let now = keep g call v in
      let later = run-All Inv P keep (step g call).0 calls now.0 in
      (later.0, All-append P (step g call).1 _ now.1 later.1)
