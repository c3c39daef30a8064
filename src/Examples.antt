-- ===== src/Examples.antt =====
-- Concrete runs: each theorem with hypotheses at an input where they hold.
mod Sim
mod Actuator
mod Telemetry
mod Config
mod Service
mod Daemon
mod Dashboard
mod Monitor
mod Controller
mod Channel
mod Logging
