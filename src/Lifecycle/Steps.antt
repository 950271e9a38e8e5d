-- ===== src/Lifecycle/Steps.antt =====
-- How each operation of `TaskService` advances the database.
use mathlib.Core.Path.{◌∙◌, subst}
use baa_system.Base.{
  ℕ, String, ◌≡◌, refl, sym, ap, true, Option, none, some, List, ◌++◌, arith, inl, inr, ◌==◌,
  if◌then◌else◌,
}
use baa_system.Models.{
  AnalysisTask, Clarification, Conversation, Database, EventBody, TaskEvent, TaskStatus,
  waiting_input, failed,
}
use baa_system.Exceptions.{Result, ok, err}
use baa_system.Redis.{RedisClient}
use baa_system.Settings.{Settings}
use baa_system.Events.{append_many}
use baa_system.Repository.{
  get_by_id, get_by_id_key, events_of, events_of-append, UniqueKeys, get_owned-get_by_id,
  get_by_id-insert,
}
use baa_system.Tasks.World.{World, flush}
use baa_system.Tasks.Transition.{TransitionArgs, moved, transition, transition_specs}
use baa_system.Tasks.Requests.{
  cancellable, cancel_task, cancel_specs, clarified_task, retried_task, cancel,
  submit_clarification, retry,
}
use baa_system.Tasks.Create.{UserMessageEvent, NewIds, new_task, insert_rows, create_from_message}
use baa_system.Lifecycle.Branches.{
  cancel-branches, retry-branches, submit_clarification-branches, create_from_message-branches,
}
use baa_system.Lifecycle.Moves.{moved_key}
use baa_system.Lifecycle.Calls.{Moved, transition-Moved}
use baa_system.Lifecycle.Requests.{get_by_id-other_tables}
use baa_system.Lifecycle.Advance.{
  StatusStep, Advances, Advances-same, flush-Advances, Advances-after,
}

Advances-refl : (db : Database) → Advances db db
Advances-refl db = Advances-same db db (λ _. refl) refl

module _ (db : Database) (now id : ℕ) (t : AnalysisTask) (h : get_by_id db id ≡ some t) where
  -- A row that replaces the stored one under the same key.
  replaced :
      (t' : AnalysisTask) (specs : List EventBody)
      → t'.id ≡ t.id
      → StatusStep t.task_status t'.task_status
      → Advances db (flush db now t' specs).0
  replaced t' specs key step =
      flush-Advances db now t' t specs (ap (get_by_id db) (key ∙ get_by_id_key db id t h) ∙ h) step

  cancelled_row :
      cancellable t.task_status ≡ true
      → Advances db (flush db now (cancel_task now t) (cancel_specs now t)).0
  unfolding cancel_task
  cancelled_row c = replaced (cancel_task now t) (cancel_specs now t) (ground arith) (ground arith)

  clarified_row :
      (c : Clarification) (specs : List EventBody)
      → t.task_status ≡ waiting_input
      → Advances db (flush db now (clarified_task now c t) specs).0
  unfolding clarified_task
  clarified_row c specs e = replaced (clarified_task now c t) specs refl (inr (rw e refl))

  retried_row :
      (specs : List EventBody)
      → t.task_status ≡ failed
      → Advances db (flush db now (retried_task now t) specs).0
  unfolding retried_task
  retried_row specs e = replaced (retried_task now t) specs refl (inr (rw e refl))

module _ {S : Type 0} (redis : RedisClient S) (settings : Settings) where
  Moved-Advances :
      (now id : ℕ) (target : TaskStatus) (args : TransitionArgs) (w : World S)
      (r : Result (Option AnalysisTask)) (w' : World S)
      → Moved redis now id target args w (r, w')
      → Advances w.db w'.db
  Moved-Advances now id target args w (err e) w' m =
      subst (λ (x : World S). Advances w.db x.db) (sym m) (Advances-refl w.db)
  Moved-Advances now id target args w (ok none) w' m =
      subst (λ (x : World S). Advances w.db x.db) (sym m) (Advances-refl w.db)
  Moved-Advances now id target args w (ok (some t')) w' (t, h, e, c, _, d) =
      let (key, status) = moved_key now target args t in
      subst (Advances w.db) (sym d) (
        replaced w.db now id t h (moved now target args t)
          (transition_specs now target args (moved now target args t)) key (inr (rw status e)))

  pub transition-Advances :
      (now id : ℕ) (target : TaskStatus) (args : TransitionArgs) (w : World S)
      → Advances w.db (transition redis now id target args w).1.db
  transition-Advances now id target args w =
      let (r, w') = transition redis now id target args w in
      Moved-Advances now id target args w r w' (transition-Moved redis now id target args w)

  module _ (w : World S) (keyed : UniqueKeys w.db.tasks) where
    pub cancel-Advances :
        (now task_id user_id : ℕ) → Advances w.db (cancel redis settings now task_id user_id w).1.db
    cancel-Advances now task_id user_id =
        cancel-branches redis settings (Advances w.db) w (Advances-refl w.db) now task_id user_id
          λ t e c.
            cancelled_row w.db now task_id t (get_owned-get_by_id w.db task_id user_id t keyed e) c

    pub retry-Advances :
        (now task_id user_id : ℕ) → Advances w.db (retry redis settings now task_id user_id w).1.db
    retry-Advances now task_id user_id =
        retry-branches redis settings (Advances w.db) w (Advances-refl w.db) now task_id user_id
          λ t e f.
            retried_row w.db now task_id t (get_owned-get_by_id w.db task_id user_id t keyed e) _ f

    pub submit_clarification-Advances :
        (now message_id task_id user_id : ℕ) (content : String)
        → Advances w.db
            (submit_clarification redis settings now message_id task_id user_id content w).1.db
    submit_clarification-Advances now message_id task_id user_id content =
        submit_clarification-branches redis settings (Advances w.db) w (Advances-refl w.db) now
          message_id task_id user_id content
          λ t conversation e waits.
            Advances-after w.db _ _ (get_by_id-other_tables w.db _ _ w.db.attachments) refl (
              clarified_row _ now task_id t
                (get_by_id-other_tables w.db _ _ w.db.attachments task_id
                  ∙ get_owned-get_by_id w.db task_id user_id t keyed e)
                _ _ waits)

-- The insertion of a task and its first events.
module _ (db : Database) (now : ℕ) (ids : NewIds) (user_id : ℕ) (request : UserMessageEvent)
    (conversation : Conversation) (specs : List EventBody) where
  abbrev task : AnalysisTask
  task = new_task now ids user_id request

  abbrev after : Database
  after = (append_many (insert_rows now ids user_id request conversation db) now task specs).0

  found :
      (id : ℕ)
      → get_by_id after id ≡ elim (get_by_id db id) [
        | none ↦ if task.id == id then some task else none
        | some u ↦ some u
      ]
  unfolding append_many insert_rows get_by_id
  found id = get_by_id-insert db id task

  insert_log :
      (id : ℕ)
      → (new : List TaskEvent) × (events_of id after.events ≡ events_of id db.events ++ new)
  unfolding append_many insert_rows
  insert_log id = (
    events_of id
        (append_many (insert_rows now ids user_id request conversation db) now task specs).1,
    events_of-append id db.events _,
  )

  insert-Advances : Advances db after
  insert-Advances = record {
    status = λ id t h. (t, rw (found id, h) refl, inl refl);
    log = insert_log;
  }

module _ {S : Type 0} (redis : RedisClient S) (settings : Settings) where
  pub create_from_message-Advances :
      (now : ℕ) (ids : NewIds) (race : Option Database) (user_id : ℕ) (request : UserMessageEvent)
      (w : World S)
      → ((db : Database) → race ≡ some db → Advances w.db db)
      → Advances w.db (create_from_message redis settings now ids race user_id request w).1.db
  create_from_message-Advances now ids race user_id request w other =
      create_from_message-branches redis settings (Advances w.db) w (Advances-refl w.db) now ids
        race user_id request other
        λ conversation _. insert-Advances w.db now ids user_id request conversation _
