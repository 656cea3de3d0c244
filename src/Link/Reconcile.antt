-- ===== src/Link/Reconcile.antt =====
-- src/link/reconcile.rs: what the host holds on the box, kept to be sent again after a reconnect.
pub mod Slots
pub mod State
pub mod Locks
pub mod Rewrites
pub mod Transforms
pub mod Clip
pub mod Session
pub mod Runs
