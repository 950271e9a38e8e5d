-- ===== src/Models.antt =====
-- The rows of the database tables that the task backend reads and writes: backend/app/models/
-- entities.py, with the Literal types of backend/app/schemas/task.py. Identifiers (UUID strings
-- and client message ids) are only compared, so they are natural numbers; a time is a number too.
use baa_system.Base.{ℕ, String, Option, List, Bool, true, false}

pub data TaskStatus : Type 0 where
  queued running waiting_input success failed cancelled : TaskStatus

pub data ConversationStatus : Type 0 where
  draft active archived deleted : ConversationStatus

pub data Role : Type 0 where
  user assistant : Role

pub data MessageType : Type 0 where
  text report : MessageType

pub record Conversation : Type 0 where
  pub id : ℕ
  pub user_id : ℕ
  pub title : String
  pub status : ConversationStatus
  pub last_message_at : Option ℕ
  pub updated_at : ℕ

pub record Message : Type 0 where
  pub id : ℕ
  pub conversation_id : ℕ
  pub task_id : Option ℕ
  pub client_msg_id : Option ℕ
  pub seq_no : ℕ
  pub role : Role
  pub message_type : MessageType
  pub content : String
  -- `content_json["clarification_for_task"]`
  pub clarification_for_task : Option ℕ

pub record Attachment : Type 0 where
  pub id : ℕ
  pub user_id : ℕ
  pub conversation_id : ℕ
  pub message_id : Option ℕ

-- One entry of `input_json["clarifications"]`.
pub record Clarification : Type 0 where
  pub content : String
  pub message_id : ℕ

pub record AnalysisTask : Type 0 where
  pub id : ℕ
  pub user_id : ℕ
  pub conversation_id : ℕ
  pub message_id : ℕ
  pub client_msg_id : ℕ
  pub task_status : TaskStatus
  pub current_step : Option String
  pub thread_id : ℕ
  pub input_text : String
  pub attachment_ids : List ℕ
  pub clarifications : List Clarification
  pub retry_count : ℕ
  pub cancel_requested : Bool
  pub started_at : Option ℕ
  pub finished_at : Option ℕ
  pub error_code : Option String
  pub error_message : Option String
  pub created_at : ℕ
  pub updated_at : ℕ

-- An event's type with the fields of its payload.
pub data EventBody : Type 0 where
  -- message_id, task_id, client_msg_id, role, seq_no
  message_start : ℕ → ℕ → Option ℕ → Role → ℕ → EventBody
  -- task_status, current_step
  task_status : TaskStatus → Option String → EventBody
  -- task_status and current_step, with `cancel_requested: True`
  cancel_pending : TaskStatus → Option String → EventBody
  -- task_status and current_step, with `retry_count`
  retry_status : TaskStatus → Option String → ℕ → EventBody
  -- node_name, node_status, with duration_ms and error_code where they are given: a `task_status`
  -- of a running task, whose current_step is the node
  node_status : String → String → Option ℕ → Option String → EventBody
  -- retry_count and report_retry_count, with a task_status of `running`
  report_retried : ℕ → ℕ → EventBody
  -- current_step, tool_name, tool_status, and summary, duration_ms and error_code where they are given
  tool_start tool_finish :
      String → String → String → Option String → Option ℕ → Option String → EventBody
  -- message_id, seq_no, delta_text
  message_delta : ℕ → ℕ → String → EventBody
  -- result_id, file_ids
  result_ready : ℕ → List ℕ → EventBody
  -- error_code, message
  error : String → Option String → EventBody
  -- question
  clarification_required : String → EventBody
  -- task_status, finished_at
  done : TaskStatus → ℕ → EventBody

pub record TaskEvent : Type 0 where
  pub task_id : ℕ
  pub conversation_id : ℕ
  pub event_seq : ℕ
  pub body : EventBody
  pub created_at : ℕ

-- The tables. Of `analysis_results` and `report_files` the backend asks only which task a row
-- belongs to.
pub record Database : Type 0 where
  pub conversations : List Conversation
  pub messages : List Message
  pub attachments : List Attachment
  pub tasks : List AnalysisTask
  pub events : List TaskEvent
  pub results : List ℕ
  pub report_files : List ℕ

-- Equality of enumeration values.
abbrev pub status_eq : TaskStatus → TaskStatus → Bool
status_eq queued queued = true
status_eq running running = true
status_eq waiting_input waiting_input = true
status_eq success success = true
status_eq failed failed = true
status_eq cancelled cancelled = true
status_eq _ _ = false

abbrev pub is_deleted : ConversationStatus → Bool
is_deleted deleted = true
is_deleted _ = false
