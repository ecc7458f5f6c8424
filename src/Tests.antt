-- ===== src/Tests.antt =====
-- Concrete data: floats that stand for integers, and the theorems applied to inputs.
pub mod Floats
mod Neck
mod Gateway
mod Simulation
mod Wire
mod Adapter
mod Tasks
mod Missions
mod Vision
mod Smoke
mod OutputCheck
mod Dashboard
mod Page
mod Probe
mod Inventory
mod Devices
