-- ===== src/Lifecycle.antt =====
-- The invariant of the task tables, and what the operations of `TaskService` do to it.
pub mod Invariant
pub mod Branches
pub mod Moves
pub mod Calls
pub mod Requests
pub mod Creation
pub mod Advance
pub mod Steps
pub mod Emissions
pub mod Stored
pub mod Idempotence
