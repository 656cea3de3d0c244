-- ===== src/Link/Reconcile/Locks.antt =====
-- The lock rows of src/link/reconcile.rs: a write that reports what it overwrote, the blanket of the
-- buttons, the undo of a write that was never sent, and the invariant of the rows.
pub mod Ops
pub mod Undo
pub mod Rows
pub mod Held
pub mod Replay
pub mod Blanket
