-- ===== src/Tasks/Results.antt =====
-- `StageFiveResultService.persist` (backend/app/services/stage_five_result_service.py): the result
-- of a run, its files and its message are stored with three events, in one transaction.
use baa_system.Base.{
  ℕ, Bool, true, false, ◌&&◌, not, Option, none, some, List, [], ◌∷◌, ◌++◌, String, map, is_some,
  member, if◌then◌else◌, scalar, ◌==◌,
}
use baa_system.Models.{AnalysisTask, Conversation, Database, EventBody, Message, assistant, report}
use baa_system.Events.{publish}
use baa_system.Redis.{RedisClient}
use baa_system.Repository.{get_by_id, lock_conversation_owned, next_message_seq, save_conversation}
use baa_system.Tasks.World.{World, flush}

-- A generated file: its new row's identifier, and its type.
pub record NewFile : Type 0 where
  pub id : ℕ
  pub file_type : String

-- The identifiers of the new rows.
pub record ResultIds : Type 0 where
  pub result_id : ℕ
  pub message_id : ℕ

-- A Markdown file and an HTML file are among the files.
abbrev pub is_complete : List NewFile → Bool
is_complete files =
    member "md" (map (λ (f : NewFile). f.file_type) files)
    && member "html" (map (λ (f : NewFile). f.file_type) files)

-- `existing is not None`.
unfoldable pub has_result : Database → ℕ → Bool
has_result db task_id = is_some (scalar (λ id. id == task_id) db.results)

unfoldable pub result_message : Database → ResultIds → AnalysisTask → String → Message
result_message db ids task summary = record {
  id = ids.message_id;
  conversation_id = task.conversation_id;
  task_id = some task.id;
  client_msg_id = none;
  seq_no = next_message_seq db task.conversation_id;
  role = assistant;
  message_type = report;
  content = summary;
  clarification_for_task = none;
}

-- The rows of the result and of its files, of which the backend asks only for the task.
abbrev pub with_result : AnalysisTask → List NewFile → Database → Database
with_result task files db = record db {
  results = db.results ++ (task.id ∷ []);
  report_files = db.report_files ++ map (λ (f : NewFile). task.id) files;
}

-- The message, in its conversation.
abbrev pub with_message : ℕ → Conversation → Message → Database → Database
with_message now conversation message db = record db {
  conversations =
      save_conversation (record conversation { last_message_at = some now; updated_at = now })
        db.conversations;
  messages = db.messages ++ (message ∷ []);
  attachments = db.attachments;
}

unfoldable pub result_specs : ResultIds → AnalysisTask → Message → List NewFile → List EventBody
result_specs ids task message files =
    EventBody.message_start message.id task.id none assistant message.seq_no
    ∷ EventBody.message_delta message.id message.seq_no message.content
    ∷ EventBody.result_ready ids.result_id (map (λ (f : NewFile). f.id) files)
    ∷ []

module _ {S : Type 0} (redis : RedisClient S) where
  -- The transaction; the events are published after it.
  unfoldable pub commit_result :
      ℕ → ResultIds → List NewFile → String → AnalysisTask → Conversation → World S → World S
  unfolding result_message result_specs
  commit_result now ids files summary task conversation w =
      let message = result_message w.db ids task summary in
      let (db', events) =
        flush (with_message now conversation message (with_result task files w.db)) now task
          (result_specs ids task message files) in
      record { db = db'; redis = publish redis events w.redis }

  unfoldable pub store_new :
      ℕ → ResultIds → List NewFile → String → AnalysisTask → World S → Bool × World S
  unfolding commit_result has_result
  store_new now ids files summary task w =
      if has_result w.db task.id
      then (true, w)
      else elim (lock_conversation_owned w.db task.conversation_id task.user_id) [
        | none ↦ (false, w)
        | some conversation ↦ (true, commit_result now ids files summary task conversation w)
      ]

  -- Whether it returns, or raises. `read` is the summary of a report that is valid and whose
  -- Markdown file can be read.
  unfoldable pub persist_result :
      ℕ → ResultIds → Option String → List NewFile → ℕ → World S → Bool × World S
  unfolding store_new
  persist_result now ids none files task_id w = (false, w)
  persist_result now ids (some summary) files task_id w =
      if not (is_complete files) then (false, w) else elim (get_by_id w.db task_id) [
        | none ↦ (false, w)
        | some task ↦ store_new now ids files summary task w
      ]
