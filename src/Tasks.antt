-- ===== src/Tasks.antt =====
-- `TaskService` (backend/app/services/task_service.py), and the other writers of a task's log: the emitter of the
-- analysis graph and the service that stores its results.
pub mod World
pub mod Transition
pub mod Requests
pub mod Create
pub mod Reads
pub mod Emitter
pub mod Results
