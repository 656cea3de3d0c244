-- ===== src/Types.antt =====
-- src/types: the vocabulary of the library's interface, a module per file of the source.
pub mod Direction
pub mod Usage
pub mod Catch
pub mod Clip
pub mod Clock
pub mod Event
pub mod Rewrite
pub mod Lock
pub mod Transform
mod Runs
