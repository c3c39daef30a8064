-- ===== src/Actuator.antt =====
-- src/actuator: what is done to a batch process, and when.
pub mod Threads
pub mod Os
pub mod Machine
pub mod Manager
