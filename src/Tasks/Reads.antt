-- ===== src/Tasks/Reads.antt =====
-- The reads of `TaskService` on a task of the user.
use baa_system.Base.{ℕ, String, Bool, Option, none, some}
use baa_system.Models.{AnalysisTask, Database, TaskStatus}
use baa_system.Events.{TaskEventList, list_owned}
use baa_system.Exceptions.{Result, ok, err, task_missing}
use baa_system.Repository.{get_owned}
use baa_system.Settings.{Settings}

-- `require_owned`
unfoldable pub require_owned : Database → ℕ → ℕ → Result AnalysisTask
require_owned db task_id user_id = elim (get_owned db task_id user_id) [
  | none ↦ err task_missing
  | some task ↦ ok task
]

unfoldable pub list_events_owned : Settings → Database → ℕ → ℕ → ℕ → Result TaskEventList
unfolding require_owned
list_events_owned settings db task_id user_id after_seq = elim (require_owned db task_id user_id) [
  | err e ↦ err e
  | ok task ↦ ok (list_owned settings db task after_seq none)
]

-- `TaskSummary` of backend/app/schemas/task.py.
pub record TaskSummary : Type 0 where
  pub task_id : ℕ
  pub conversation_id : ℕ
  pub message_id : ℕ
  pub client_msg_id : ℕ
  pub task_status : TaskStatus
  pub current_step : Option String
  pub cancel_requested : Bool
  pub retry_count : ℕ
  pub started_at : Option ℕ
  pub finished_at : Option ℕ
  pub error_code : Option String
  pub error_message : Option String
  pub created_at : ℕ
  pub updated_at : ℕ

unfoldable pub to_summary : AnalysisTask → TaskSummary
to_summary task = record {
  task_id = task.id;
  conversation_id = task.conversation_id;
  message_id = task.message_id;
  client_msg_id = task.client_msg_id;
  task_status = task.task_status;
  current_step = task.current_step;
  cancel_requested = task.cancel_requested;
  retry_count = task.retry_count;
  started_at = task.started_at;
  finished_at = task.finished_at;
  error_code = task.error_code;
  error_message = task.error_message;
  created_at = task.created_at;
  updated_at = task.updated_at;
}

unfoldable pub get_owned_summary : Database → ℕ → ℕ → Result TaskSummary
unfolding require_owned to_summary
get_owned_summary db task_id user_id = elim (require_owned db task_id user_id) [
  | err e ↦ err e
  | ok task ↦ ok (to_summary task)
]
