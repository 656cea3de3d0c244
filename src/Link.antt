-- ===== src/Link.antt =====
-- src/link: the connection to one box.
pub mod Reconcile
pub mod Correlation
pub mod Slot
pub mod Restart
pub mod Catch
pub mod Reconnect
pub mod Subscribe
