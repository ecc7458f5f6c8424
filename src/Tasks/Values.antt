-- ===== src/Tasks/Values.antt =====
-- robot/events.py: the values of the event types, as `to_dict` writes them.
use valera_control_tower.Base.{◌≡◌, arith, text_eq, ok}
use valera_control_tower.Tasks.Models.{require_enum, member_of, raw_text}
use valera_control_tower.Tasks.Events.{EventType, event_type_value, all_event_types}

pub require_enum-event_type_value :
    (t : EventType)
    → require_enum event_type_value all_event_types (raw_text (event_type_value t)) ≡ ok t
unfolding require_enum member_of event_type_value text_eq
require_enum-event_type_value t = ground arith
