-- ===== src/DataAgent.antt =====
-- The data agent (backend/app/data_agent, backend/app/agent/tools/db_query.py): a question becomes
-- one read-only SQL statement on allowed tables, which is checked, bounded and run.
pub mod Schemas
pub mod Action
pub mod Sql
pub mod Candidate
pub mod Period
pub mod Controlled
pub mod Execution
pub mod Service
pub mod Names
pub mod Query
pub mod Trace
pub mod Conduct
pub mod Answers
pub mod QuerySafety
pub mod Failures
pub mod ReadOnly
pub mod Client
pub mod ToolResults
pub mod Requests
