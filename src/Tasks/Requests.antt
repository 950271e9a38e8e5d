-- ===== src/Tasks/Requests.antt =====
-- The operations of `TaskService` that a user's request makes on an existing task: `cancel`,
-- `submit_clarification` and `retry`.
use baa_system.Base.{
  ℕ, ◌+◌, String, Bool, true, false, not, ◌||◌, none, some, List, [], ◌∷◌, ◌++◌, if◌then◌else◌,
}
use baa_system.Models.{
  AnalysisTask, Conversation, Clarification, Database, EventBody, Message, TaskEvent, TaskStatus,
  queued, running, waiting_input, failed, cancelled, user, text, status_eq,
}
use baa_system.Events.{publish}
use baa_system.Exceptions.{
  ok, err, Action, app_error, task_missing, conversation_missing, task_not_cancellable,
  task_not_retryable,
}
use baa_system.Redis.{RedisClient}
use baa_system.Repository.{get_owned, lock_conversation_owned, next_message_seq, save_conversation}
use baa_system.Settings.{Settings}
use baa_system.Tasks.World.{World, flush, enqueue_safely, request_safely, clear_safely}

pub record CancelTaskResult : Type 0 where
  pub task_id : ℕ
  pub task_status : TaskStatus
  pub cancel_requested : Bool
  pub accepted : Bool

-- `task.task_status not in {"queued", "running", "waiting_input"}` is `not` this.
abbrev pub cancellable : TaskStatus → Bool
cancellable queued = true
cancellable running = true
cancellable waiting_input = true
cancellable _ = false

-- The row and the events of `cancel`: a waiting task ends at once, and a running one is flagged for
-- its worker.
unfoldable pub cancel_task : ℕ → AnalysisTask → AnalysisTask
cancel_task now task =
    if status_eq task.task_status queued || status_eq task.task_status waiting_input
    then record task {
      task_status = cancelled;
      current_step = none;
      cancel_requested = true;
      finished_at = some now;
      updated_at = now;
    }
    else record task { cancel_requested = true; updated_at = now }

-- `_terminal_events`, or the one `task_status` event.
unfoldable pub cancel_specs : ℕ → AnalysisTask → List EventBody
cancel_specs now task =
    if status_eq task.task_status queued || status_eq task.task_status waiting_input
    then EventBody.task_status cancelled none ∷ EventBody.done cancelled now ∷ []
    else EventBody.cancel_pending running task.current_step ∷ []

-- The row of `submit_clarification` and of `retry`.
unfoldable pub clarified_task : ℕ → Clarification → AnalysisTask → AnalysisTask
clarified_task now clarification task = record task {
  clarifications = task.clarifications ++ (clarification ∷ []);
  task_status = queued;
  current_step = some "resume";
  cancel_requested = false;
  finished_at = none;
  updated_at = now;
}

unfoldable pub retried_task : ℕ → AnalysisTask → AnalysisTask
retried_task now task = record task {
  task_status = queued;
  current_step = some "retry";
  retry_count = task.retry_count + 1;
  cancel_requested = false;
  finished_at = none;
  error_code = none;
  error_message = none;
  updated_at = now;
}

-- The message that carries the user's answer.
unfoldable pub clarification_message : Database → ℕ → AnalysisTask → String → Message
clarification_message db message_id task content = record {
  id = message_id;
  conversation_id = task.conversation_id;
  task_id = some task.id;
  client_msg_id = none;
  seq_no = next_message_seq db task.conversation_id;
  role = user;
  message_type = text;
  content = content;
  clarification_for_task = some task.id;
}

module _ {S : Type 0} (redis : RedisClient S) (settings : Settings) where
  cancel_row : ℕ → AnalysisTask → Action (World S) CancelTaskResult
  cancel_row now task w =
      if not (cancellable task.task_status)
      then (err (app_error task_not_cancellable "当前任务状态不可取消" 409), w)
      else let task' = cancel_task now task in
        let (db', events) = flush w.db now task' (cancel_specs now task) in
        (
          ok (record {
            task_id = task.id;
            task_status = task'.task_status;
            cancel_requested = true;
            accepted = true;
          }),
          record {
            db = db';
            redis = publish redis events (request_safely redis settings task.id w.redis);
          },
        )

  unfoldable pub cancel : ℕ → ℕ → ℕ → Action (World S) CancelTaskResult
  unfolding cancel_row
  cancel now task_id user_id w = elim (get_owned w.db task_id user_id) [
    | none ↦ (err task_missing, w)
    | some task ↦ cancel_row now task w
  ]

  -- `cancellation_service.clear`, `_enqueue_safely` and `publish`, in that order, after a commit
  -- that queued the task again.
  requeue : ℕ → List TaskEvent → S → S
  requeue task_id events s =
      publish redis events
        (enqueue_safely redis settings task_id (clear_safely redis settings task_id s))

  -- With the conversation locked: insert the message, then the row and its event.
  clarify_row : ℕ → ℕ → AnalysisTask → Conversation → String → Action (World S) (List TaskEvent)
  clarify_row now message_id task conversation content w =
      let message = clarification_message w.db message_id task content in
      let db1 : Database = record w.db {
        messages = w.db.messages ++ (message ∷ []);
        conversations =
            save_conversation (record conversation { last_message_at = some now; updated_at = now })
              w.db.conversations;
      } in
      let clarification : Clarification = record { content = content; message_id = message_id } in
      let (db', events) =
        flush db1 now (clarified_task now clarification task)
          (EventBody.task_status queued (some "resume") ∷ []) in
      (ok events, record { db = db'; redis = requeue task.id events w.redis })

  clarify_waiting : ℕ → ℕ → AnalysisTask → ℕ → String → Action (World S) (List TaskEvent)
  clarify_waiting now message_id task user_id content w =
      if not (status_eq task.task_status waiting_input)
      then (err (app_error task_not_retryable "任务当前不等待补充信息" 409), w)
      else elim (lock_conversation_owned w.db task.conversation_id user_id) [
        | none ↦ (err conversation_missing, w)
        | some conversation ↦ clarify_row now message_id task conversation content w
      ]

  -- `message_id` is the key that the new row gets.
  unfoldable pub submit_clarification : ℕ → ℕ → ℕ → ℕ → String → Action (World S) (List TaskEvent)
  unfolding clarify_row clarify_waiting requeue
  submit_clarification now message_id task_id user_id content w =
      elim (get_owned w.db task_id user_id) [
        | none ↦ (err task_missing, w)
        | some task ↦ clarify_waiting now message_id task user_id content w
      ]

  retry_row : ℕ → AnalysisTask → Action (World S) AnalysisTask
  retry_row now task w =
      if not (status_eq task.task_status failed)
      then (err (app_error task_not_retryable "只有失败任务可以重试" 409), w)
      else let task' = retried_task now task in
        let (db', events) =
          flush w.db now task'
            (EventBody.retry_status queued (some "retry") task'.retry_count ∷ []) in
        (ok task', record { db = db'; redis = requeue task.id events w.redis })

  -- The summary that the source returns is the row itself.
  unfoldable pub retry : ℕ → ℕ → ℕ → Action (World S) AnalysisTask
  unfolding retry_row requeue
  retry now task_id user_id w = elim (get_owned w.db task_id user_id) [
    | none ↦ (err task_missing, w)
    | some task ↦ retry_row now task w
  ]
