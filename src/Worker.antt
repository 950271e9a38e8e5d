-- ===== src/Worker.antt =====
-- `TaskWorker` (backend/app/workers/task_worker.py): it takes a task from the queue, claims it,
-- runs the executor, and moves the task to where the execution ended.
pub mod Process
pub mod Loop
pub mod Backoff
