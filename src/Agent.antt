-- ===== src/Agent.antt =====
-- The analysis agent (backend/app/agent): a graph of nodes that a task runs through.
pub mod State
pub mod Runtime
pub mod Graph
pub mod Measure
pub mod Termination
pub mod Executor
pub mod Outcomes
