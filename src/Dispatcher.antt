-- ===== src/Dispatcher.antt =====
-- src/dispatcher.rs: what every battery is told to do in a cycle, and the safety around it.
pub mod Bounds
pub mod Correction
pub mod Overhead
pub mod Mute
pub mod Pulse
pub mod Shares
pub mod Targets
pub mod Safety
pub mod Night
pub mod Deltas
pub mod Cycle
