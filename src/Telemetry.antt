-- ===== src/Telemetry.antt =====
-- src/telemetry: measuring, and deciding what the measurements call for.
pub mod Tracker
pub mod AutoPolicy
pub mod Safety
pub mod Window
pub mod Adaptive
pub mod CpuMath
pub mod Monitor
