-- ===== src/System.antt =====
-- The task backend as a whole: any interleaving of the requests, the workers and what else writes
-- to its stores.
pub mod Steps
