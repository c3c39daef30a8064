-- ===== src/Config.antt =====
-- src/config: reading the configuration file.
pub mod Accepted
pub mod Fields
pub mod Json
pub mod Optional
pub mod Ranges
pub mod Runtime
pub mod Secrets
pub mod Sections
pub mod Whole
