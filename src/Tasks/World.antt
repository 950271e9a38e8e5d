-- ===== src/Tasks/World.antt =====
-- What an operation of `TaskService` works on: the committed database and the Redis server, with
-- the status sets of backend/app/services/task_service.py.
use baa_system.Base.{ℕ, String, Bool, true, false, Option, none, some, List}
use baa_system.Models.{
  AnalysisTask, Database, EventBody, TaskEvent, TaskStatus, queued, running, waiting_input, success,
  failed, cancelled,
}
use baa_system.Events.{append_many}
use baa_system.Queue.{enqueue}
use baa_system.Cancellation
use baa_system.Redis.{RedisClient}
use baa_system.Repository.{save_task}
use baa_system.Settings.{Settings}

pub record World (S : Type 0) : Type 0 where
  pub db : Database
  pub redis : S

-- `TERMINAL_TASK_STATUSES`
abbrev pub is_terminal : TaskStatus → Bool
is_terminal success = true
is_terminal failed = true
is_terminal cancelled = true
is_terminal _ = false

-- `target in ALLOWED_TRANSITIONS.get(source, set())`
abbrev pub allowed_transition : TaskStatus → TaskStatus → Bool
allowed_transition queued running = true
allowed_transition queued cancelled = true
allowed_transition running waiting_input = true
allowed_transition running success = true
allowed_transition running failed = true
allowed_transition running cancelled = true
allowed_transition waiting_input queued = true
allowed_transition waiting_input cancelled = true
allowed_transition failed queued = true
allowed_transition _ _ = false

-- `if text:` and `text or default` on an optional string.
abbrev pub text_of : String → Bool
text_of String.[] = false
text_of _ = true

abbrev pub truthy : Option String → Bool
truthy none = false
truthy (some s) = text_of s

-- The session's flush of a changed task, then `append_many`: the database that `commit` makes, and
-- the events for `publish`.
unfoldable pub flush : Database → ℕ → AnalysisTask → List EventBody → Database × List TaskEvent
flush db now task specs = append_many (record db { tasks = save_task task db.tasks }) now task specs

module _ {S : Type 0} (redis : RedisClient S) (settings : Settings) where
  -- `_enqueue_safely`: a `RedisError` is logged.
  unfoldable pub enqueue_safely : ℕ → S → S
  enqueue_safely task_id s = (enqueue redis settings task_id s).1

  -- `try: await cancellation_service.request(...) except RedisError`, and so for `clear`.
  unfoldable pub request_safely : ℕ → S → S
  request_safely task_id s = (Cancellation.request redis settings task_id s).1

  unfoldable pub clear_safely : ℕ → S → S
  clear_safely task_id s = (Cancellation.clear redis settings task_id s).1
