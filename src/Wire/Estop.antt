-- ===== src/Wire/Estop.antt =====
-- robot/vr_gateway/wire.py and gateway.py: an emergency stop on its way from the raw text.
use valera_control_tower.Base.{ℕ, ◌≡◌, true, arith, List, ◌∷◌, All, Text, ok, ap, sym, ◌∙◌}
use valera_control_tower.Base.Float.{FloatOps}
use valera_control_tower.Messages.{CommandName, Payload, empty_payload, CommandEnvelope}
use valera_control_tower.Gateway.{VrGateway}
use valera_control_tower.Gateway.Trace.{Call, handles, run}
use valera_control_tower.Gateway.Latch.{IsLatched, IsStill, run-IsLatched}
use valera_control_tower.Wire.Decode.{Decoder, envelope_object}
use valera_control_tower.Wire.Command.{decode_command}
use valera_control_tower.Wire.Accepted.{fits}
use valera_control_tower.Wire.Envelope.{decode_command-IsContract}

fits_emergency_stop :
    {F : Type 0} (p : Payload F) → fits CommandName.emergency_stop p ≡ true → p ≡ empty_payload
unfolding fits
fits_emergency_stop p h = ground arith

module _ (fl : FloatOps) where
  open fl use {F}

  -- A raw text that decodes to an `emergency_stop` stops the robot for good: from the call of
  -- `handle` with the decoded command on, in whatever state the gateway was and whatever calls
  -- follow, it stays latched and no event moves the neck.
  pub decode_command-run-IsLatched :
      (decoder : Decoder F) (raw : Text) (c : CommandEnvelope F) (g : VrGateway F) (now : ℕ)
      (calls : List (Call F))
      → decode_command fl decoder raw ≡ ok c
      → c.command ≡ CommandName.emergency_stop
      → IsLatched (run fl g (handles (envelope_object c) now ∷ calls)).0
        × All IsStill (run fl g (handles (envelope_object c) now ∷ calls)).1
  decode_command-run-IsLatched decoder raw c g now calls h e =
      let (contract, validated) = decode_command-IsContract fl decoder raw c h in
      run-IsLatched fl g (envelope_object c) c now calls validated e
        (fits_emergency_stop c.payload (ap (λ k. fits k c.payload) (sym e) ∙ contract.payload_fits))
