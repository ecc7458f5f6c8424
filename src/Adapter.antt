-- ===== src/Adapter.antt =====
-- robot/vr_gateway/adapter.py, and the publishing bridge of robot/vr_gateway_ros/handlers.py.
-- `publish` is the outside world: what it is given is the list of published texts, in order.
pub mod Malformed
pub mod Stamps
pub mod Stamped
pub mod Runs
use valera_control_tower.Base.{
  ℕ, Bool, true, false, List, [], Text, Result, ok, raised, Exception, ◌>>=◌, wire_error,
}
use valera_control_tower.Base.Float.{FloatOps}
use valera_control_tower.Messages.{CommandEnvelope, OutputEvent}
use valera_control_tower.Messages.Validation.{Value, other_value}
use valera_control_tower.Gateway.{VrGateway}
use valera_control_tower.Gateway.Handle.{handle}
use valera_control_tower.Gateway
use valera_control_tower.Wire.Decode.{Decoder, envelope_object}
use valera_control_tower.Wire.Command.{decode_command}
use valera_control_tower.Wire.Encode.{Dumps, encode_events}

abbrev pub is_wire_error : Exception → Bool
is_wire_error wire_error = true
is_wire_error _ = false

module _ (fl : FloatOps) where
  open fl use {F}

  -- The command that is handed to the gateway: the sentinel `_UNPARSEABLE` for a WireError.
  unfoldable pub parsed : Result (CommandEnvelope F) → Result (Value F)
  parsed (ok c) = ok (envelope_object c)
  parsed (raised e) = elim (is_wire_error e) [ true ↦ ok other_value | false ↦ raised e ]

  -- `wire.encode_events` of what the gateway gave.
  abbrev pub encoded : Dumps fl → Result (List (OutputEvent F)) → Result (List Text)
  encoded dumps events = events >>= encode_events fl dumps

  -- `VrGatewayAdapter.handle_command`: the gateway that it leaves, and the texts or the exception.
  unfoldable pub handle_command :
      Decoder F → Dumps fl → VrGateway F → Text → ℕ → VrGateway F × Result (List Text)
  unfolding parsed
  handle_command decoder dumps g raw now = elim (parsed (decode_command fl decoder raw)) [
    | raised e ↦ (g, raised e)
    | ok command ↦ let (g', events) = handle fl g command now in (g', encoded dumps events)
  ]

  -- `VrGatewayAdapter.poll`
  unfoldable pub poll : Dumps fl → VrGateway F → ℕ → VrGateway F × Result (List Text)
  poll dumps g now = let (g', events) = Gateway.poll g now in (g', encode_events fl dumps events)

  -- `for event_json in ...: self._publish(event_json)`, where no call of `publish` raises.
  abbrev pub publishing :
      VrGateway F × Result (List Text) → VrGateway F × List Text × Result (Unit {0})
  publishing (g, ok lines) = (g, lines, ok tt)
  publishing (g, raised e) = (g, [], raised e)

  -- `VrGatewayBridge.handle_command` and `VrGatewayBridge.poll`: what is published.
  unfoldable pub bridge_handle_command :
      Decoder F → Dumps fl → VrGateway F → Text → ℕ → VrGateway F × List Text × Result (Unit {0})
  bridge_handle_command decoder dumps g raw now =
      publishing (handle_command decoder dumps g raw now)

  unfoldable pub bridge_poll :
      Dumps fl → VrGateway F → ℕ → VrGateway F × List Text × Result (Unit {0})
  bridge_poll dumps g now = publishing (poll dumps g now)
