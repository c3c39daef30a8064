-- ===== src/Logging.antt =====
-- src/logging: the tamper-evident log.
pub mod Chain
pub mod Names
