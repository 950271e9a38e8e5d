-- ===== src/Log.antt =====
-- The event log of a task, as a client sees it through `EventService`.
pub mod Numbering
pub mod Paging
pub mod Replay
