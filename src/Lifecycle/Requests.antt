-- ===== src/Lifecycle/Requests.antt =====
-- The invariant through `cancel`, `submit_clarification` and `retry`.
use mathlib.Core.Path.{◌∙◌}
use baa_system.Base.{ℕ, ◌≡◌, refl, ap, String, true, some, List, [], ◌∷◌, arith, is_some}
use baa_system.Models.{
  AnalysisTask, Attachment, Clarification, Conversation, Database, EventBody, Message, queued,
}
use baa_system.Redis.{RedisClient}
use baa_system.Repository.{
  get_by_id, get_by_id_key, get_owned-get_by_id, has_complete_result, events_of,
}
use baa_system.Settings.{Settings}
use baa_system.Tasks.World.{World, is_terminal, flush}
use baa_system.Tasks.Requests.{
  cancellable, cancel_task, cancel_specs, clarified_task, retried_task, cancel,
  submit_clarification, retry,
}
use baa_system.Log.Replay.{View, observe_all, replay}
use baa_system.Lifecycle.Branches.{cancel-branches, retry-branches, submit_clarification-branches}
use baa_system.Lifecycle.Invariant.{RowIsValid, IsValid, flush-IsValid}

-- The invariant reads neither conversations nor messages nor attachments.
pub IsValid-other_tables :
    (db : Database) (cs : List Conversation) (ms : List Message) (as' : List Attachment)
    → IsValid db
    → IsValid (record db { conversations = cs; messages = ms; attachments = as' })
unfolding get_by_id has_complete_result
IsValid-other_tables db cs ms as' v = record {
  keyed = v.keyed;
  numbered = v.numbered;
  row = λ id t h.
      let r = v.row id t h in
      record { finished = r.finished; classified = r.classified; complete = r.complete };
  logged = v.logged;
  orphan = v.orphan;
}

pub get_by_id-other_tables :
    (db : Database) (cs : List Conversation) (ms : List Message) (as' : List Attachment) (id : ℕ)
    → get_by_id (record db { conversations = cs; messages = ms; attachments = as' }) id
      ≡ get_by_id db id
unfolding get_by_id
get_by_id-other_tables db cs ms as' id = refl

module _ (db : Database) (now id : ℕ) (t : AnalysisTask) (v : IsValid db)
    (h : get_by_id db id ≡ some t) where
  -- A row that replaces the stored one under the same key.
  pub replaced :
      (t' : AnalysisTask) (specs : List EventBody)
      → t'.id ≡ t.id
      → RowIsValid db t'
      → observe_all (replay (events_of t'.id db.events)) specs
        ≡ some (t'.task_status, is_terminal t'.task_status)
      → IsValid (flush db now t' specs).0
  replaced t' specs key r reported =
      flush-IsValid db now t' specs (rw (key, get_by_id_key db id t h) (ap is_some h)) v r reported

  cancel_task-RowIsValid :
      cancellable t.task_status ≡ true → RowIsValid db t → RowIsValid db (cancel_task now t)
  unfolding cancel_task
  cancel_task-RowIsValid c r = ground arith

  observe-cancel_specs :
      (view : View)
      → cancellable t.task_status ≡ true
      → let t' = cancel_task now t in
        observe_all view (cancel_specs now t) ≡ some (t'.task_status, is_terminal t'.task_status)
  unfolding cancel_task cancel_specs
  observe-cancel_specs view c = ground arith

  cancel_task_key : (cancel_task now t).id ≡ t.id
  unfolding cancel_task
  cancel_task_key = ground arith

  clarified_task-RowIsValid : (c : Clarification) → RowIsValid db (clarified_task now c t)
  unfolding clarified_task
  clarified_task-RowIsValid c = ground arith

  retried_task-RowIsValid : RowIsValid db (retried_task now t)
  unfolding retried_task
  retried_task-RowIsValid = ground arith

  cancelled_row :
      cancellable t.task_status ≡ true
      → IsValid (flush db now (cancel_task now t) (cancel_specs now t)).0
  cancelled_row c =
      replaced (cancel_task now t) (cancel_specs now t) cancel_task_key
        (cancel_task-RowIsValid c (v.row id t h))
        (observe-cancel_specs (replay (events_of (cancel_task now t).id db.events)) c)

  clarified_row :
      (c : Clarification)
      → IsValid
          (flush db now
            (clarified_task now c t)
            (EventBody.task_status queued (some "resume") ∷ [])).0
  clarified_row c =
      replaced (clarified_task now c t) (EventBody.task_status queued (some "resume") ∷ [])
        (unfold clarified_task in refl) (clarified_task-RowIsValid c)
        (unfold clarified_task in refl)

  retried_row :
      (n : ℕ)
      → IsValid
          (flush db now
            (retried_task now t)
            (EventBody.retry_status queued (some "retry") n ∷ [])).0
  retried_row n =
      replaced (retried_task now t) (EventBody.retry_status queued (some "retry") n ∷ [])
        (unfold retried_task in refl) retried_task-RowIsValid (unfold retried_task in refl)

module _ {S : Type 0} (redis : RedisClient S) (settings : Settings) where
  -- Whoever calls `cancel`, on whatever task, the invariant is kept.
  pub cancel-IsValid :
      (now task_id user_id : ℕ) (w : World S)
      → IsValid w.db
      → IsValid (cancel redis settings now task_id user_id w).1.db
  cancel-IsValid now task_id user_id w v =
      cancel-branches redis settings IsValid w v now task_id user_id λ t e c.
        cancelled_row w.db now task_id t v (get_owned-get_by_id w.db task_id user_id t v.keyed e) c

  -- Whoever calls `retry`, on whatever task, the invariant is kept.
  pub retry-IsValid :
      (now task_id user_id : ℕ) (w : World S)
      → IsValid w.db
      → IsValid (retry redis settings now task_id user_id w).1.db
  retry-IsValid now task_id user_id w v =
      retry-branches redis settings IsValid w v now task_id user_id λ t e _.
        retried_row w.db now task_id t v (get_owned-get_by_id w.db task_id user_id t v.keyed e) _

  -- Whoever calls `submit_clarification`, on whatever task, the invariant is kept.
  pub submit_clarification-IsValid :
      (now message_id task_id user_id : ℕ) (content : String) (w : World S)
      → IsValid w.db
      → IsValid (submit_clarification redis settings now message_id task_id user_id content w).1.db
  submit_clarification-IsValid now message_id task_id user_id content w v =
      submit_clarification-branches redis settings IsValid w v now message_id task_id user_id
        content
        λ t conversation e _.
          clarified_row _ now task_id t (IsValid-other_tables w.db _ _ w.db.attachments v)
            (get_by_id-other_tables w.db _ _ w.db.attachments task_id
              ∙ get_owned-get_by_id w.db task_id user_id t v.keyed e)
            _
