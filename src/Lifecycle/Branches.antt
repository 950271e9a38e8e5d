-- ===== src/Lifecycle/Branches.antt =====
-- How an operation of `TaskService` can change the database: the branches that leave it alone, and
-- the one that writes, as principles to prove a property of the database after the call.
use baa_system.Base.{
  ℕ, String, ◌≡◌, true, not, Option, some, List, [], ◌∷◌, ◌++◌, arith, length, unique, ◌==◌,
  by_option, by_test, none, false,
}
use baa_system.Models.{
  AnalysisTask, Attachment, Conversation, Database, EventBody, queued, waiting_input, failed,
  status_eq,
}
use baa_system.Events.{append_many}
use baa_system.Exceptions.{Result, ok, err, integrity_error}
use baa_system.Redis.{RedisClient}
use baa_system.Repository.{
  get_owned, get_idempotent, get_active_for_conversation, lock_conversation_owned,
  owned_attachments, list_events, save_conversation,
}
use baa_system.Settings.{Settings}
use baa_system.Tasks.World.{World, flush}
use baa_system.Tasks.Requests.{
  cancellable, cancel_task, cancel_specs, clarified_task, retried_task, clarification_message,
  cancel, submit_clarification, retry,
}
use baa_system.Tasks.Create.{
  UserMessageEvent, NewIds, TaskCreationOutcome, get_message, new_message, new_task, insert_rows,
  creation_specs, create_from_message,
}

-- The database in which `submit_clarification` flushes the row.
abbrev pub with_answer : ℕ → ℕ → AnalysisTask → Conversation → String → Database → Database
with_answer now message_id task conversation content db = record db {
  messages = db.messages ++ (clarification_message db message_id task content ∷ []);
  conversations =
      save_conversation (record conversation { last_message_at = some now; updated_at = now })
        db.conversations;
}

abbrev pub clarify : ℕ → ℕ → AnalysisTask → Conversation → String → Database → Database
clarify now message_id task conversation content db =
    (flush (with_answer now message_id task conversation content db) now
      (clarified_task now (record { content = content; message_id = message_id }) task)
      (EventBody.task_status queued (some "resume") ∷ [])).0

abbrev pub rerun : ℕ → AnalysisTask → Database → Database
rerun now task db =
    (flush db now (retried_task now task)
      (EventBody.retry_status queued (some "retry") (retried_task now task).retry_count ∷ [])).0

abbrev pub insert : ℕ → NewIds → ℕ → UserMessageEvent → Conversation → Database → Database
insert now ids user_id request conversation db =
    (append_many (insert_rows now ids user_id request conversation db) now
      (new_task now ids user_id request)
      (creation_specs ids request (new_message db ids request).seq_no)).0

module _ {S : Type 0} (redis : RedisClient S) (settings : Settings) (P : Database → Type 0)
    (w : World S) (same : P w.db) where
  abbrev Keeps : {A : Type 0} → Result A × World S → Type 0
  Keeps r = P r.1.db

  pub cancel-branches :
      (now task_id user_id : ℕ)
      → ((t : AnalysisTask)
          → get_owned w.db task_id user_id ≡ some t
          → cancellable t.task_status ≡ true
          → P (flush w.db now (cancel_task now t) (cancel_specs now t)).0)
      → P (cancel redis settings now task_id user_id w).1.db
  unfolding cancel
  cancel-branches now task_id user_id written =
      by_option Keeps (get_owned w.db task_id user_id) _ _ (λ _. same)
        λ t e.
          by_test Keeps (not (cancellable t.task_status)) _ _ (λ _. same)
            λ c. written t e (ground arith)

  pub retry-branches :
      (now task_id user_id : ℕ)
      → ((t : AnalysisTask)
          → get_owned w.db task_id user_id ≡ some t
          → t.task_status ≡ failed
          → P (rerun now t w.db))
      → P (retry redis settings now task_id user_id w).1.db
  unfolding retry
  retry-branches now task_id user_id written =
      by_option Keeps (get_owned w.db task_id user_id) _ _ (λ _. same)
        λ t e.
          by_test Keeps (not (status_eq t.task_status failed)) _ _ (λ _. same)
            λ c. written t e (ground arith)

  pub submit_clarification-branches :
      (now message_id task_id user_id : ℕ) (content : String)
      → ((t : AnalysisTask) (conversation : Conversation)
          → get_owned w.db task_id user_id ≡ some t
          → t.task_status ≡ waiting_input
          → P (clarify now message_id t conversation content w.db))
      → P (submit_clarification redis settings now message_id task_id user_id content w).1.db
  unfolding submit_clarification
  submit_clarification-branches now message_id task_id user_id content written =
      by_option Keeps (get_owned w.db task_id user_id) _ _ (λ _. same)
        λ t e.
          by_test Keeps (not (status_eq t.task_status waiting_input)) _ _ (λ _. same)
            λ c.
              by_option Keeps (lock_conversation_owned w.db t.conversation_id user_id) _ _
                (λ _. same) λ conversation _. written t conversation e (ground arith)

  module _ (now : ℕ) (ids : NewIds) (race : Option Database) (user_id : ℕ)
      (request : UserMessageEvent) (other : (db : Database) → race ≡ some db → P db) where
    after_race :
        (db : Database)
        → P db
        → Keeps {A = TaskCreationOutcome}
            (elim (get_idempotent db user_id request.conversation_id request.client_msg_id) [
              | none ↦ (err integrity_error, record w { db = db })
              | some existing ↦ elim (get_message db existing.message_id) [
                | none ↦ (err integrity_error, record w { db = db })
                | some message ↦ (
                  ok (record {
                    task = existing;
                    message = message;
                    events = list_events db existing.id 0 10;
                    created = false;
                  }),
                  record w { db = db },
                )
              ]
            ])
    after_race db p =
        by_option (Keeps {A = TaskCreationOutcome})
          (get_idempotent db user_id request.conversation_id request.client_msg_id) _ _ (λ _. p)
          λ existing _.
            by_option (Keeps {A = TaskCreationOutcome}) (get_message db existing.message_id) _ _
              (λ _. p) λ _ _. p

    pub create_from_message-branches :
        ((conversation : Conversation)
          → get_active_for_conversation w.db request.conversation_id ≡ none
          → P (insert now ids user_id request conversation w.db))
        → P (create_from_message redis settings now ids race user_id request w).1.db
    unfolding create_from_message
    create_from_message-branches written =
        by_option (Keeps {A = TaskCreationOutcome})
          (lock_conversation_owned w.db request.conversation_id user_id) _ _ (λ _. same)
          λ conversation locked.
            by_option (Keeps {A = TaskCreationOutcome})
              (get_idempotent w.db user_id request.conversation_id request.client_msg_id) _ _
              (λ _.
                by_option (Keeps {A = TaskCreationOutcome})
                  (get_active_for_conversation w.db request.conversation_id) _ _
                  (λ idle.
                    by_test (Keeps {A = TaskCreationOutcome})
                      (not (length owned == length (unique request.attachment_ids))) _ _ (λ _. same)
                      λ _.
                        by_option (Keeps {A = TaskCreationOutcome}) race _ _
                          (λ _. written conversation idle) λ db e. after_race db (other db e))
                  (λ _ _. same))
              λ existing _.
                by_option (Keeps {A = TaskCreationOutcome}) (get_message w.db existing.message_id) _
                  _ (λ _. same)
                  λ message _.
                    by_test (λ (x : World S). P x.db) (status_eq existing.task_status queued) _ _
                      (λ _. same) (λ _. same)
      where
        owned : List Attachment
        owned =
            owned_attachments w.db (unique request.attachment_ids) user_id request.conversation_id
