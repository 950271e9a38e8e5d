-- ===== src/Repository/Queries.antt =====
-- The queries of `TaskRepository` (backend/app/repositories/task_repository.py), and the writes of
-- the session. A row lock (`with_for_update`) makes the operation that takes it one step; it
-- changes no value.
use baa_system.Base.{
  ℕ, ◌+◌, Bool, true, not, ◌&&◌, ◌||◌, Option, List, [], ◌∷◌, reverse, take, select, scalar,
  contains, is_some, is_empty, order_by, max_by, ltb, ◌==◌, if◌then◌else◌,
}
use baa_system.Models.{
  Conversation, Attachment, AnalysisTask, TaskEvent, Database, queued, running, waiting_input,
  is_deleted, status_eq,
}

unfoldable pub lock_conversation_owned : Database → ℕ → ℕ → Option Conversation
lock_conversation_owned db conversation_id user_id =
    scalar (λ c. c.id == conversation_id && c.user_id == user_id && not (is_deleted c.status))
      db.conversations

unfoldable pub get_owned : Database → ℕ → ℕ → Option AnalysisTask
get_owned db task_id user_id = scalar (λ t. t.id == task_id && t.user_id == user_id) db.tasks

unfoldable pub get_by_id : Database → ℕ → Option AnalysisTask
get_by_id db task_id = scalar (λ t. t.id == task_id) db.tasks

unfoldable pub get_idempotent : Database → ℕ → ℕ → ℕ → Option AnalysisTask
get_idempotent db user_id conversation_id client_msg_id =
    scalar
      (λ t.
        t.user_id == user_id
        && t.conversation_id == conversation_id
        && t.client_msg_id == client_msg_id)
      db.tasks

-- The latest by `created_at`: the last of the rows in ascending order.
abbrev latest : List AnalysisTask → Option AnalysisTask
latest ts = scalar (λ t. true) (reverse (order_by (λ t. t.created_at) ts))

unfoldable pub is_active : AnalysisTask → Bool
is_active t = status_eq t.task_status queued || status_eq t.task_status running

unfoldable pub get_active_for_conversation : Database → ℕ → Option AnalysisTask
unfolding is_active
get_active_for_conversation db conversation_id =
    latest (select (λ t. t.conversation_id == conversation_id && is_active t) db.tasks)

unfoldable pub get_latest_for_conversation : Database → ℕ → ℕ → Option AnalysisTask
get_latest_for_conversation db conversation_id user_id =
    latest (select (λ t. t.conversation_id == conversation_id && t.user_id == user_id) db.tasks)

unfoldable pub list_queued : Database → ℕ → List AnalysisTask
list_queued db limit =
    take limit
      (order_by (λ t. t.created_at) (select (λ t. status_eq t.task_status queued) db.tasks))

unfoldable pub list_expired_waiting : Database → ℕ → ℕ → List AnalysisTask
list_expired_waiting db updated_before limit = take limit (
    order_by (λ t. t.updated_at)
      (select (λ t. status_eq t.task_status waiting_input && ltb t.updated_at updated_before)
        db.tasks))

unfoldable pub next_message_seq : Database → ℕ → ℕ
next_message_seq db conversation_id =
    max_by (λ m. m.seq_no) (select (λ m. m.conversation_id == conversation_id) db.messages) + 1

unfoldable pub owned_attachments : Database → List ℕ → ℕ → ℕ → List Attachment
owned_attachments db attachment_ids user_id conversation_id =
    if is_empty attachment_ids
    then []
    else select
        (λ a.
          contains a.id attachment_ids
          && a.user_id == user_id
          && a.conversation_id == conversation_id)
        db.attachments

-- The rows of one task in `task_events`, in the order of their insertion.
unfoldable pub events_of : ℕ → List TaskEvent → List TaskEvent
events_of task_id es = select (λ e. e.task_id == task_id) es

unfoldable pub next_event_seq : Database → ℕ → ℕ
next_event_seq db task_id = max_by (λ e. e.event_seq) (events_of task_id db.events) + 1

unfoldable pub list_events : Database → ℕ → ℕ → ℕ → List TaskEvent
list_events db task_id after_seq limit = take limit (
    order_by (λ e. e.event_seq)
      (select (λ e. ltb after_seq e.event_seq) (events_of task_id db.events)))

unfoldable pub has_complete_result : Database → ℕ → Bool
has_complete_result db task_id =
    is_some (scalar (λ id. id == task_id) db.results)
    && is_some (scalar (λ id. id == task_id) db.report_files)

-- The flush of a changed row: the row with this key is replaced.
unfoldable pub save_task : AnalysisTask → List AnalysisTask → List AnalysisTask
save_task task [] = []
save_task task (t ∷ ts) = if t.id == task.id then task ∷ ts else t ∷ save_task task ts

unfoldable pub save_conversation : Conversation → List Conversation → List Conversation
save_conversation c [] = []
save_conversation c (d ∷ ds) = if d.id == c.id then c ∷ ds else d ∷ save_conversation c ds
