-- ===== src/Device.antt =====
-- src/device: the calls of the library's interface that decide something before they send.
pub mod Rewrite
pub mod Transform
pub mod Lock
pub mod Clip
mod Runs
