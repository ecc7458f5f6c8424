-- ===== src/Tasks.antt =====
-- robot/models.py, evidence.py, events.py and state_machine.py: tasks, their events and their log.
pub mod Models
pub mod Evidence
pub mod Events
pub mod EventLog
pub mod Log
pub mod Values
