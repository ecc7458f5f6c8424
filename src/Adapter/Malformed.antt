-- ===== src/Adapter/Malformed.antt =====
-- robot/vr_gateway/adapter.py: a raw command that the codec refuses.
use valera_control_tower.Base.{ℕ, ◌≡◌, refl, none, [], ◌∷◌, ◌++◌, Text, raised, wire_error}
use valera_control_tower.Base.Float.{FloatOps}
use valera_control_tower.Messages.{rejected_event, invalid_payload}
use valera_control_tower.Messages.Validation.{validate_command_envelope}
use valera_control_tower.Gateway.{VrGateway, command_rejected_event}
use valera_control_tower.Gateway
use valera_control_tower.Gateway.Handlers.{reject_untrusted}
use valera_control_tower.Gateway.Handle.{reject_invalid, handle}
use valera_control_tower.Wire.Decode.{Decoder}
use valera_control_tower.Wire.Command.{decode_command}
use valera_control_tower.Wire.Encode.{Dumps, encode_events}
use valera_control_tower.Adapter.{parsed, handle_command}
use valera_control_tower.Adapter

module _ (fl : FloatOps) where
  open fl use {F}

  -- A text that the codec refuses with a WireError does to the gateway what a poll at that time
  -- does, and is answered with the poll's events and one more: a rejection with INVALID_PAYLOAD
  -- that names no session and no sequence.
  pub handle_command-poll :
      (decoder : Decoder F) (dumps : Dumps fl) (g : VrGateway F) (raw : Text) (now : ℕ)
      → decode_command fl decoder raw ≡ raised wire_error
      → ((handle_command fl decoder dumps g raw now).0 ≡ (Adapter.poll fl dumps g now).0)
        × ((handle_command fl decoder dumps g raw now).1
            ≡ encode_events fl dumps (
                (Gateway.poll g now).1
                ++ rejected_event (command_rejected_event now invalid_payload none none) ∷ []))
  unfolding handle_command parsed handle validate_command_envelope reject_invalid reject_untrusted
      Gateway.poll Adapter.poll
  handle_command-poll decoder dumps g raw now h = rw (h, handle_command) (refl, refl)
