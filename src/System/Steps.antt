-- ===== src/System/Steps.antt =====
-- The step relation. The requests of users and the moves of workers are calls of `TaskService`,
-- each one step, since it locks the row that it changes; so are the events of a run's nodes and
-- tools, and the storing of its result; the API writes conversations, messages and attachments; and
-- the Redis server changes as it likes. `Step` has every transaction that writes tasks, events,
-- results or report files. A node runs between its worker's claim of the task and the worker's
-- next transition of it, which no other request makes: so its task is running.
use baa_system.Base.{ℕ, String, ◌≡◌, true, false, Bool, Option, none, some, List}
use baa_system.Models.{
  AnalysisTask, Attachment, Conversation, Database, Message, TaskStatus, success, running,
  cancelled,
}
use baa_system.Redis.{RedisClient}
use baa_system.Settings.{Settings}
use baa_system.Repository.{get_by_id}
use baa_system.Tasks.World.{World}
use baa_system.Tasks.Transition.{TransitionArgs, transition}
use baa_system.Tasks.Requests.{cancel, submit_clarification, retry}
use baa_system.Tasks.Create.{UserMessageEvent, NewIds, create_from_message}
use baa_system.Tasks.Emitter.{emit_node, emit_tool, emit_report_retry}
use baa_system.Tasks.Results.{ResultIds, NewFile, persist_result}
use baa_system.Lifecycle.Invariant.{IsValid}
use baa_system.Lifecycle.Advance.{Advances}

module _ {S : Type 0} (redis : RedisClient S) (settings : Settings) where
  pub data Step (w : World S) : World S → Type 0 where
    -- `race` is what a concurrent transaction has made of the database.
    creates :
        (now : ℕ) (ids : NewIds) (race : Option Database) (user_id : ℕ) (request : UserMessageEvent)
        → get_by_id w.db ids.task_id ≡ none
        → ((db : Database) → race ≡ some db → IsValid db × Advances w.db db)
        → Step w (create_from_message redis settings now ids race user_id request w).1
    moves :
        (now id : ℕ) (target : TaskStatus) (args : TransitionArgs)
        → Step w (transition redis now id target args w).1
    cancels : (now id user_id : ℕ) → Step w (cancel redis settings now id user_id w).1
    clarifies :
        (now message_id id user_id : ℕ) (content : String)
        → Step w (submit_clarification redis settings now message_id id user_id content w).1
    retries : (now id user_id : ℕ) → Step w (retry redis settings now id user_id w).1
    -- A run announces its nodes, while its task is running, and its tools.
    emits_node :
        (now id : ℕ) (node_name node_status : String) (duration_ms : Option ℕ)
        (error_code : Option String)
        → ((t : AnalysisTask) → get_by_id w.db id ≡ some t → t.task_status ≡ running)
        → Step w (emit_node redis now id node_name node_status duration_ms error_code w)
    emits_report_retry :
        (now id report_retry_count : ℕ)
        → ((t : AnalysisTask) → get_by_id w.db id ≡ some t → t.task_status ≡ running)
        → Step w (emit_report_retry redis now id report_retry_count w)
    emits_tool :
        (now id : ℕ) (node_name tool_name tool_status : String) (summary : Option String)
        (duration_ms : Option ℕ) (error_code : Option String)
        → Step w (
            emit_tool redis now id node_name tool_name tool_status summary duration_ms error_code w)
    stores :
        (now : ℕ) (ids : ResultIds) (read : Option String) (files : List NewFile) (id : ℕ)
        → Step w (persist_result redis now ids read files id w).1
    writes :
        (cs : List Conversation) (ms : List Message) (as' : List Attachment)
        → Step w
            (record w { db = record w.db { conversations = cs; messages = ms; attachments = as' } })
    redis_changes : (s : S) → Step w (record w { redis = s })

  -- The worlds that the system can come to.
  pub data Reach (w : World S) : World S → Type 0 where
    start : Reach w w
    further : (u v : World S) → Reach w u → Step u v → Reach w v

  abbrev pub is_final : TaskStatus → Bool
  is_final success = true
  is_final cancelled = true
  is_final _ = false
