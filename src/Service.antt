-- ===== src/Service.antt =====
-- src/service: the Windows service and its parts.
pub mod Session
pub mod AutoProtect
pub mod Daemon
pub mod Dashboard
pub mod Coordination
