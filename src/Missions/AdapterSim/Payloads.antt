-- ===== src/Missions/AdapterSim/Payloads.antt =====
-- robot/adapter_sim_mission.py: the payloads that report what the adapters answered.
use valera_control_tower.Base.{
  pos, ◌&&◌, Option, none, some, List, [], ◌∷◌, Text, text, if◌then◌else◌,
}
use valera_control_tower.Wire.{
  Json, null, boolean, integer, number, string, array, object, Items, nil, cons, Fields, end, field,
}
use valera_control_tower.Tasks.Models.{Task, zone_value}
use valera_control_tower.Devices.{
  CameraRole, adapter_mode_value, adapter_type_value, camera_role_value, AdapterIdentity,
  CameraProbeResult, FrameArtifact, FrameCaptureResult, BoundingBox, VisionDetection, VisionResult,
  ArmProbeResult, ArmState, ArmCommandResult,
}
use valera_control_tower.Missions.{merge, base_payload}

-- The role of the camera, or the empty text.
abbrev first_role : List CameraRole → Text
first_role [] = []
first_role (r ∷ rs) = camera_role_value r

module _ {F : Type 0} where
  -- The three fields of an adapter's identity, in front of others.
  abbrev identified : AdapterIdentity F → Fields F → Fields F
  identified i rest = field (text "adapter_id") (string i.adapter_id) (
      field (text "adapter_mode") (string (adapter_mode_value i.mode))
        (field (text "adapter_type") (string (adapter_type_value i.adapter_type)) rest))

  -- `_camera_probe_payload`
  unfoldable pub camera_probe_payload : Task → CameraProbeResult F → Fields F
  camera_probe_payload task p = merge (base_payload task) (
      field (text "status")
        (string (if p.ok then text "camera_ready" else text "camera_unavailable"))
        (identified p.identity (
          field (text "camera_role") (string (first_role p.capabilities.roles)) (
            field (text "device_label") (string p.device_label) (
              field (text "supports_frame_capture") (boolean p.capabilities.supports_frame_capture)
                (field (text "supports_depth") (boolean p.capabilities.supports_depth) end))))))

  abbrev artifact_fields : Option (FrameArtifact F) → Fields F
  artifact_fields none = end
  artifact_fields (some a) = field (text "artifact_uri") (string a.artifact_uri) (
      field (text "frame_hash") (string a.frame_hash) (
        field (text "media_type") (string a.media_type)
          (field (text "width") (integer a.width) (field (text "height") (integer a.height) end))))

  -- `_frame_payload`
  unfoldable pub frame_payload : Task → FrameCaptureResult F → Fields F
  frame_payload task f =
      merge
        (merge (base_payload task) (
          field (text "status") (string (if f.ok then text "captured" else text "capture_failed")) (
            identified f.identity
              (field (text "camera_role") (string (camera_role_value f.camera_role)) end))))
        (artifact_fields f.artifact)

  -- `_bounding_box_to_dict`
  unfoldable pub bounding_box_to_dict : BoundingBox → Fields F
  bounding_box_to_dict b = field (text "x") (integer b.x) (
      field (text "y") (integer b.y)
        (field (text "width") (integer b.width) (field (text "height") (integer b.height) end)))

  abbrev box_fields : Option BoundingBox → Fields F
  box_fields none = end
  box_fields (some b) = field (text "bounding_box") (object (bounding_box_to_dict b)) end

  -- `_detection_to_dict`
  unfoldable pub detection_to_dict : VisionDetection F → Fields F
  detection_to_dict d = field (text "object_id") (string d.object_id) (
      field (text "label") (string d.label) (
        field (text "confidence") (number d.confidence)
          (field (text "metadata") (object d.metadata) (box_fields d.bounding_box))))

  abbrev detection_items : List (VisionDetection F) → Items F
  detection_items [] = nil
  detection_items (d ∷ ds) = cons (object (detection_to_dict d)) (detection_items ds)

  -- `_vision_payload`
  unfoldable pub vision_payload : Task → VisionResult F → Fields F
  vision_payload task r = merge (base_payload task) (
      field (text "status") (string (text "detected")) (
        identified r.identity (
          field (text "source_artifact_uri") (string r.source_artifact_uri)
            (field (text "detections") (array (detection_items r.detections)) end))))

  -- The payload of OBJECT_NOT_FOUND.
  unfoldable pub not_found_payload : Task → VisionResult F → Fields F
  not_found_payload task r = merge (base_payload task) (
      field (text "status") (string (text "not_found")) (
        field (text "source_artifact_uri") (string r.source_artifact_uri) (
          field (text "adapter_id") (string r.identity.adapter_id)
            (field (text "adapter_mode") (string (adapter_mode_value r.identity.mode)) end))))

  -- The payload of OBJECT_FOUND, for the first detection.
  unfoldable pub found_payload : Task → VisionResult F → VisionDetection F → Fields F
  found_payload task r d = merge (base_payload task) (
      field (text "status") (string (text "found")) (
        field (text "current_target_zone") (string (zone_value task.pickup_zone)) (
          field (text "object_id") (string d.object_id) (
            field (text "label") (string d.label) (
              field (text "confidence") (number d.confidence)
                (field (text "source_artifact_uri") (string r.source_artifact_uri) end))))))

  -- `_arm_probe_payload`
  unfoldable pub arm_probe_payload : Task → ArmProbeResult F → Fields F
  arm_probe_payload task p = merge (base_payload task) (
      field (text "status") (string (if p.ok then text "arm_ready" else text "arm_unavailable")) (
        identified p.identity (
          field (text "can_read_state") (boolean p.capabilities.can_read_state) (
            field (text "can_enable_torque") (boolean p.capabilities.can_enable_torque) (
              field (text "can_move") (boolean p.capabilities.can_move) (
                field (text "joint_count") (integer (pos p.capabilities.joint_count))
                  (field (text "runtime") (string p.runtime) end)))))))

  abbrev torque_value : Option (ArmState F) → Json F
  torque_value none = null
  torque_value (some s) = boolean s.torque_enabled

  -- `_grasp_payload`
  unfoldable pub grasp_payload : Task → ArmCommandResult F → Fields F
  grasp_payload task r = merge (base_payload task) (
      field (text "status")
        (string (if r.ok && r.executed then text "secured" else text "grasp_failed"))
        (identified r.identity (
          field (text "command_name") (string r.command_name) (
            field (text "executed") (boolean r.executed) (
              field (text "torque_enabled") (torque_value r.state)
                (field (text "current_target_zone") (string (zone_value task.pickup_zone)) end))))))
