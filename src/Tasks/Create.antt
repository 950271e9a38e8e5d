-- ===== src/Tasks/Create.antt =====
-- `TaskService.create_from_message`: a user's message becomes a queued task.
use baa_system.Base.{
  ℕ, String, Bool, true, false, not, ◌&&◌, Option, none, some, List, [], ◌∷◌, ◌++◌, map, length,
  unique, contains, scalar, ◌==◌, if◌then◌else◌,
}
use baa_system.Models.{
  AnalysisTask, Attachment, Conversation, ConversationStatus, Database, EventBody, Message,
  TaskEvent, queued, user, text, status_eq,
}
use baa_system.Events.{append_many, publish}
use baa_system.Exceptions.{
  ok, err, Action, app_error, app_exception, integrity_error, conversation_missing,
  resource_not_found, task_already_running, internal_error,
}
use baa_system.Redis.{RedisClient}
use baa_system.Repository.{
  lock_conversation_owned, get_idempotent, get_active_for_conversation, owned_attachments,
  next_message_seq, list_events, save_conversation,
}
use baa_system.Settings.{Settings}
use baa_system.Tasks.World.{World, enqueue_safely}

-- `UserMessageEvent` of backend/app/schemas/websocket.py, after its validation.
pub record UserMessageEvent : Type 0 where
  pub conversation_id : ℕ
  pub client_msg_id : ℕ
  pub content : String
  pub attachment_ids : List ℕ

-- The keys that `uuid4` gives to the new rows and the thread.
pub record NewIds : Type 0 where
  pub message_id : ℕ
  pub task_id : ℕ
  pub thread_id : ℕ

pub record TaskCreationOutcome : Type 0 where
  pub task : AnalysisTask
  pub message : Message
  pub events : List TaskEvent
  pub created : Bool

-- `session.get(Message, id)`
unfoldable pub get_message : Database → ℕ → Option Message
get_message db id = scalar (λ m. m.id == id) db.messages

-- `attachment.message_id = message.id` for the selected attachments.
attach : List ℕ → ℕ → ℕ → ℕ → Attachment → Attachment
attach ids user_id conversation_id message_id a =
    if contains a.id ids && a.user_id == user_id && a.conversation_id == conversation_id
    then record a { message_id = some message_id }
    else a

unfoldable pub new_message : Database → NewIds → UserMessageEvent → Message
new_message db ids request = record {
  id = ids.message_id;
  conversation_id = request.conversation_id;
  task_id = some ids.task_id;
  client_msg_id = some request.client_msg_id;
  seq_no = next_message_seq db request.conversation_id;
  role = user;
  message_type = text;
  content = request.content;
  clarification_for_task = none;
}

unfoldable pub new_task : ℕ → NewIds → ℕ → UserMessageEvent → AnalysisTask
new_task now ids user_id request = record {
  id = ids.task_id;
  user_id = user_id;
  conversation_id = request.conversation_id;
  message_id = ids.message_id;
  client_msg_id = request.client_msg_id;
  task_status = queued;
  current_step = some "queued";
  thread_id = ids.thread_id;
  input_text = request.content;
  attachment_ids = unique request.attachment_ids;
  clarifications = [];
  retry_count = 0;
  cancel_requested = false;
  started_at = none;
  finished_at = none;
  error_code = none;
  error_message = none;
  created_at = now;
  updated_at = now;
}

-- The rows that are written before the events.
unfoldable pub insert_rows : ℕ → NewIds → ℕ → UserMessageEvent → Conversation → Database → Database
unfolding attach
insert_rows now ids user_id request conversation db = record db {
  messages = db.messages ++ (new_message db ids request ∷ []);
  tasks = db.tasks ++ (new_task now ids user_id request ∷ []);
  attachments =
      map (attach (unique request.attachment_ids) user_id request.conversation_id ids.message_id)
        db.attachments;
  conversations =
      save_conversation
        (record conversation {
          status = ConversationStatus.active;
          last_message_at = some now;
          updated_at = now;
        })
        db.conversations;
}

unfoldable pub creation_specs : NewIds → UserMessageEvent → ℕ → List EventBody
creation_specs ids request seq_no =
    EventBody.message_start ids.message_id ids.task_id (some request.client_msg_id) user seq_no
    ∷ EventBody.task_status queued (some "queued")
    ∷ []

module _ {S : Type 0} (redis : RedisClient S) (settings : Settings) where
  -- The replay of an earlier request with the same client message id.
  existing_outcome : Database → AnalysisTask → Message → TaskCreationOutcome
  existing_outcome db existing message = record {
    task = existing;
    message = message;
    events = list_events db existing.id 0 10;
    created = false;
  }

  unfoldable pub idempotent : AnalysisTask → Action (World S) TaskCreationOutcome
  unfolding existing_outcome
  idempotent existing w = elim (get_message w.db existing.message_id) [
    | none ↦ (err (app_error internal_error "任务消息不存在" 500), w)
    | some message ↦ (
      ok (existing_outcome w.db existing message),
      if status_eq existing.task_status queued
          then record w { redis = enqueue_safely redis settings existing.id w.redis }
          else w,
    )
  ]

  -- After `rollback`: `db` is what the session then reads.
  after_integrity_error : ℕ → UserMessageEvent → Database → Action (World S) TaskCreationOutcome
  after_integrity_error user_id request db w =
      let w' : World S = record w { db = db } in
      elim (get_idempotent db user_id request.conversation_id request.client_msg_id) [
        | none ↦ (err integrity_error, w')
        | some existing ↦ elim (get_message db existing.message_id) [
          | none ↦ (err integrity_error, w')
          | some message ↦ (ok (existing_outcome db existing message), w')
        ]
      ]

  -- The inserts, and `commit` with its outcome: `none`, or an `IntegrityError` after which the
  -- session reads the given database.
  insert_task :
      ℕ
      → NewIds
      → Option Database
      → ℕ
      → UserMessageEvent
      → Conversation
      → Action (World S) TaskCreationOutcome
  insert_task now ids race user_id request conversation w =
      let task = new_task now ids user_id request in
      let message = new_message w.db ids request in
      let (db', events) =
        append_many (insert_rows now ids user_id request conversation w.db) now task
          (creation_specs ids request message.seq_no) in
      elim race [
        | some db ↦ after_integrity_error user_id request db w
        | none ↦ (
          ok (record { task = task; message = message; events = events; created = true }),
          record {
            db = db';
            redis = publish redis events (enqueue_safely redis settings task.id w.redis);
          },
        )
      ]

  -- With the conversation locked and no task for this client message id.
  unfoldable pub create_new :
      ℕ
      → NewIds
      → Option Database
      → ℕ
      → UserMessageEvent
      → Conversation
      → Action (World S) TaskCreationOutcome
  unfolding existing_outcome after_integrity_error insert_task
  create_new now ids race user_id request conversation w =
      elim (get_active_for_conversation w.db request.conversation_id) [
        | some active ↦ (
          err (
              app_exception (record {
                code = task_already_running;
                message = "当前会话已有进行中的任务";
                status_code = 409;
                active_task = some (active.id, active.task_status);
              })),
          w,
        )
        | none ↦
            let attachment_ids = unique request.attachment_ids in
            let attachments =
              owned_attachments w.db attachment_ids user_id request.conversation_id in
            if not (length attachments == length attachment_ids)
            then (err (app_error resource_not_found "附件不存在或不属于当前会话" 404), w)
            else insert_task now ids race user_id request conversation w
      ]

  unfoldable pub create_from_message :
      ℕ → NewIds → Option Database → ℕ → UserMessageEvent → Action (World S) TaskCreationOutcome
  unfolding existing_outcome idempotent after_integrity_error insert_task create_new
  create_from_message now ids race user_id request w =
      elim (lock_conversation_owned w.db request.conversation_id user_id) [
        | none ↦ (err conversation_missing, w)
        | some conversation ↦
            elim (get_idempotent w.db user_id request.conversation_id request.client_msg_id) [
              | some existing ↦ idempotent existing w
              | none ↦ create_new now ids race user_id request conversation w
            ]
      ]
