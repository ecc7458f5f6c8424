-- ===== src/Lib.antt =====
-- Valera control tower: the VR gateway, which turns head commands from a headset into neck
-- targets, its wire codec and adapter, the missions with their event logs and simulated hardware, the
-- dashboard, and scripts that probe the hardware.
--
-- The program's parts and the files that model them:
--   robot/vr_gateway/messages.py: Messages.antt has the message classes as records and data types,
--     Messages/Validation.antt the validation of an unvalidated object (`Value`), with every
--     exception that it raises as a value (Base/Exceptions.antt).
--   robot/vr_gateway/neck.py: Neck.antt has NeckController as a record and its operations, Neck/
--     the bounds, the safety invariant and the rate.
--   robot/vr_gateway/gateway.py: Gateway.antt has VrGateway as a record, its transitions and
--     deadlines, Gateway/Handlers.antt the handlers, Gateway/Handle.antt `handle`. Every operation
--     takes the gateway and gives the new one with its events or the exception. Gateway/Cases.antt
--     splits `handle` into its branches; Gateway/Recovery.antt is about the way back from a stop, the
--     other files of Gateway/ are named for what they show.
--   robot/vr_gateway/simulation.py: Gateway/Simulation.antt has the scripted run and the dictionaries of
--     its events, which Gateway/Dictionary.antt compares with those of the wire.
--   robot/vr_gateway/wire.py: Wire.antt has JSON documents and the limits, Wire/Scan.antt the scan
--     of the raw text, Wire/Document.antt the checks of a decoded document, Wire/Decode.antt the
--     fields, Wire/Command.antt the payloads and `decode_command`. Wire/Contract.antt,
--     Wire/Accepted.antt and Wire/Envelope.antt are about the commands that it returns,
--     Wire/Estop.antt about an emergency stop from the raw text on.
--   robot/vr_gateway/wire.py, the other way: Wire/Encode.antt has the encoders of the events.
--   robot/vr_gateway/adapter.py and robot/vr_gateway_ros/handlers.py: Adapter.antt;
--     Adapter/Malformed.antt is about texts that are no command, and Adapter/Runs.antt, with
--     Adapter/Stamps.antt and Adapter/Stamped.antt, about the answers of an adapter over its calls.
--   robot/models.py, evidence.py, events.py and state_machine.py: Tasks/Models.antt,
--     Tasks/Evidence.antt, Tasks/Events.antt and Tasks/EventLog.antt; Tasks/Log.antt is about the
--     two checks of a log.
--   robot/adapters/ and robot/adapter_runtime.py: Devices.antt has what the adapters exchange,
--     Devices/Interfaces.antt the methods that a mission calls, Devices/Simulated.antt and
--     Devices/Runtime.antt the simulated adapters; Devices/Torque.antt is about the arm.
--   robot/sim_executor.py, physical_demo.py and adapter_sim_mission.py: Missions/Simulated.antt,
--     Missions/Physical.antt, and Missions/AdapterSim.antt with Missions/AdapterSim/Payloads.antt.
--     Missions.antt has the helpers that the three files repeat. Missions/Open.antt is about logs
--     that can take events; the other files of Missions/ are about the runs.
--   robot/vision.py and robot/live_camera.py: Vision.antt and Vision/LiveCamera.antt.
--     Vision/Outcome.antt is about a detection, Vision/Demo.antt about the physical demo with the
--     live camera.
--   robot/hybrid_demo.py: Missions/Hybrid.antt; Missions/HybridRun.antt and
--     Missions/HybridTotal.antt are about its log.
--   scripts/smoke_hybrid_demo.py: Missions/Smoke.antt has the checks of a run, from the rendering of
--     the dashboard on; Missions/SmokeRun.antt puts them together with the mission and the dashboard's
--     summary.
--   scripts/check_physical_demo_output.py: OutputCheck.antt; OutputCheck/Sound.antt and
--     OutputCheck/Passed.antt are about a check that passes. Tasks/Values.antt is about the values of
--     the event types.
--   dashboard/render.py: Dashboard.antt has the summary, Dashboard/Summary.antt is about it.
--     Dashboard/Evidence.antt has the evidence of an event on the page, Dashboard/Template.antt the
--     fixed parts of the page and Dashboard/Page.antt the page. Dashboard/Skeleton.antt has the
--     tags of a page without its texts and Dashboard/Markup.antt compares the two;
--     Dashboard/Links.antt is about the links to evidence.
--   scripts/probe_cameras.py: Probe.antt has the choice of the cameras, Probe/Capture.antt the probe and
--     the run; Probe/Selection.antt and Probe/Released.antt are about them.
--   scripts/collect_hardware_inventory.py: Inventory.antt has what is read of the machine,
--     Inventory/Collect.antt the commands and the notes, Inventory/Report.antt the report;
--     Inventory/Commands.antt is about the commands that it starts.
--   Tests/ runs the code at concrete inputs.
--
-- A raw command is decoded to an envelope, which `handle` validates again and routes: to the latch
-- and the session bookkeeping of the gateway, and for head.pose to the neck controller, whose
-- target goes out as an event. `handle` and `poll` first look at the deadlines. The reading of the
-- clock is an argument of each call.
--
-- Python's float is the interface `FloatOps` of Base/Float.antt, and what the theorems use of IEEE
-- 754 is `IsIeee`; Tests/Floats.antt has an instance over the whole numbers. Clock readings,
-- sequences and timeouts are natural numbers of any size, as Python's int; integers from outside
-- may be negative (ℤ). A str is the list of its code points. The JSON decoder of the standard
-- library is a parameter, given the two hooks, the text and the index where it starts. All loops
-- are structural recursions but one: the decimal digits of n are written on the fuel n + 1, which is
-- enough (Missions/Digits.antt). The nesting of Python's own stack is not bounded.
-- Of a mission the datetimes, the paths of pathlib, the camera probe, the operator's answers and the
-- adapters are parameters, as records of functions; a stateful one hands its own state on. Payloads
-- are JSON objects in the order of their keys. ValidationError with the code
-- HARDWARE_MODE_NOT_ENABLED is an exception of its own.
--
-- On the dashboard's page html.escape, json.dumps, str of a value that is no string, and the paths of
-- pathlib and os.path are parameters; what is written to the output file is a result.
--
-- OpenCV, the camera and the disk are the record `Cv2` of Vision.antt, and for the camera probe
-- `CameraDriver` of Probe/Capture.antt, whose calls hand a world on. The calls of the operating system
-- that an inventory makes are the record `Machine` of Inventory.antt.
--
-- Not modelled: terminals and rclpy (ROS), the replay files that the demos write, the generators of
-- marker images in robot/vision.py, the reports that the scripts write as Markdown, the scripts of
-- scripts/ that are not named above, which are command lines, and the Unity client, which is in another
-- language.
pub mod Base
pub mod Messages
pub mod Neck
pub mod Gateway
pub mod Wire
pub mod Adapter
pub mod Tasks
pub mod Missions
pub mod Devices
pub mod Vision
pub mod OutputCheck
pub mod Dashboard
pub mod Probe
pub mod Inventory
mod Tests
