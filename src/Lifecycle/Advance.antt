-- ===== src/Lifecycle/Advance.antt =====
-- How one database may follow another: a stored task stays stored and goes at most one step along
-- `ALLOWED_TRANSITIONS`, and its event log only grows.
use mathlib.Core.Path.{◌∙◌, subst}
use mathlib.Core.List.{append-nil}
use baa_system.Base.{
  ℕ, ◌≡◌, refl, sym, ap, true, some, List, [], ◌++◌, arith, is_some, Bool-cases, ◌⊎◌, inl, inr,
  ◌==◌, ==→eq,
}
use baa_system.Models.{AnalysisTask, Database, EventBody, TaskEvent, TaskStatus}
use baa_system.Events.{append_many}
use baa_system.Repository.{get_by_id, events_of, events_of-append, save_task}
use baa_system.Tasks.World.{allowed_transition, flush}
use baa_system.Lifecycle.Invariant.{get_by_id-flush}

abbrev pub StatusStep : TaskStatus → TaskStatus → Type 0
StatusStep s t = (s ≡ t) ⊎ (allowed_transition s t ≡ true)

pub record Advances (db db' : Database) : Type 0 where
  pub status :
      (id : ℕ) (t : AnalysisTask)
      → get_by_id db id ≡ some t
      → (t' : AnalysisTask) × (get_by_id db' id ≡ some t') × StatusStep t.task_status t'.task_status
  pub log :
      (id : ℕ) → (new : List TaskEvent) × (events_of id db'.events ≡ events_of id db.events ++ new)

-- Where the task rows and the events are the same.
pub Advances-same :
    (db db' : Database)
    → ((id : ℕ) → get_by_id db' id ≡ get_by_id db id)
    → db'.events ≡ db.events
    → Advances db db'
Advances-same db db' same log = record {
  status = λ id t h. (t, same id ∙ h, inl refl);
  log = λ id. ([], ap (events_of id) log ∙ sym (append-nil _));
}

-- Only the task rows and the events before count.
pub Advances-after :
    (db other db' : Database)
    → ((id : ℕ) → get_by_id other id ≡ get_by_id db id)
    → other.events ≡ db.events
    → Advances other db'
    → Advances db db'
Advances-after db other db' same log a = record {
  status = λ id t h. a.status id t (same id ∙ h);
  log = λ id. let (new, e) = a.log id in (new, e ∙ ap (λ es. events_of id es ++ new) log);
}

-- The flush of a stored row with a status that its old status leads to.
module _ (db : Database) (now : ℕ) (task old : AnalysisTask) (specs : List EventBody)
    (stored : get_by_id db task.id ≡ some old)
    (step : StatusStep old.task_status task.task_status) where
  same_row : (id : ℕ) (t : AnalysisTask) → task.id ≡ id → get_by_id db id ≡ some t → old ≡ t
  same_row id t e h = ground (arith, ap (get_by_id db) e)

  flush_status :
      (id : ℕ) (t : AnalysisTask)
      → get_by_id db id ≡ some t
      → (t' : AnalysisTask) × (get_by_id (flush db now task specs).0 id ≡ some t')
        × StatusStep t.task_status t'.task_status
  flush_status id t h = elim (Bool-cases (task.id == id)) [
    | inl e ↦ (
      task,
      rw (get_by_id-flush db now task specs (ap is_some stored) id, e) refl,
      subst (λ (u : AnalysisTask). StatusStep u.task_status task.task_status)
          (same_row id t (==→eq task.id id e) h) step,
    )
    | inr e ↦ (t, rw (get_by_id-flush db now task specs (ap is_some stored) id, e) h, inl refl)
  ]

  flush_log :
      (id : ℕ)
      → (new : List TaskEvent) × (events_of id (flush db now task specs).0.events
          ≡ events_of id db.events ++ new)
  unfolding flush append_many
  flush_log id = (
    events_of id (append_many (record db { tasks = save_task task db.tasks }) now task specs).1,
    events_of-append id db.events _,
  )

  pub flush-Advances : Advances db (flush db now task specs).0
  flush-Advances = record { status = flush_status; log = flush_log }
