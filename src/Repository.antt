-- ===== src/Repository.antt =====
-- `TaskRepository` (backend/app/repositories/task_repository.py): its queries, and their laws.
mod Queries
mod Rows
mod Keys
unfoldable pub use Queries.*
pub use Rows.*
pub use Keys.*
