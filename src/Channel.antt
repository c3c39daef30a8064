-- ===== src/Channel.antt =====
-- src/common/SecureChannel.cpp: the encrypted channel between a daemon and its controller.
pub mod Bytes
pub mod Frame
pub mod Link
