-- ===== src/Wire.antt =====
-- robot/vr_gateway/wire.py: the limits of the wire contract, and JSON documents.
pub mod Scan
pub mod Document
pub mod Decode
pub mod Command
pub mod Contract
pub mod Accepted
pub mod Envelope
pub mod Estop
pub mod Encode
use valera_control_tower.Base.{ℕ, Bool, ℤ, Text, text, List, [], ◌∷◌}

abbrev pub max_input_characters : ℕ
max_input_characters = 65_536

abbrev pub max_input_utf8_bytes : ℕ
max_input_utf8_bytes = 65_536

abbrev pub max_json_depth : ℕ
max_json_depth = 16

abbrev pub max_int64 : ℕ
max_int64 = 9_223_372_036_854_775_807

abbrev pub max_mode_length : ℕ
max_mode_length = 64

-- What the decoder of the standard library gives. An object holds its fields in their order.
mutual
  pub data Json (F : Type 0) : Type 0 where
    null : Json F
    boolean : Bool → Json F
    integer : ℤ → Json F
    number : F → Json F
    string : Text → Json F
    array : Items F → Json F
    object : Fields F → Json F

  pub data Items (F : Type 0) : Type 0 where
    nil : Items F
    cons : Json F → Items F → Items F

  pub data Fields (F : Type 0) : Type 0 where
    end : Fields F
    field : Text → Json F → Fields F → Fields F

abbrev pub envelope_keys : List Text
envelope_keys =
    text "schema_version"
    ∷ text "command"
    ∷ text "session_id"
    ∷ text "sequence"
    ∷ text "timestamp_ms"
    ∷ text "payload"
    ∷ []

abbrev pub head_pose_keys : List Text
head_pose_keys = text "frame" ∷ text "orientation" ∷ text "position" ∷ []

abbrev pub head_recenter_keys : List Text
head_recenter_keys = text "frame" ∷ text "orientation" ∷ []

abbrev pub quaternion_keys : List Text
quaternion_keys = text "x" ∷ text "y" ∷ text "z" ∷ text "w" ∷ []

abbrev pub position_keys : List Text
position_keys = text "x" ∷ text "y" ∷ text "z" ∷ []

abbrev pub session_start_keys : List Text
session_start_keys = text "requested_mode" ∷ []

abbrev pub mode_set_keys : List Text
mode_set_keys = text "mode" ∷ []

-- `{"frame", "orientation"}` of `_decode_head_pose`
abbrev pub pose_required_keys : List Text
pose_required_keys = text "frame" ∷ text "orientation" ∷ []
