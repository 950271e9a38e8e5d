-- ===== src/Lifecycle/Invariant.antt =====
-- The invariant that relates the rows of `analysis_tasks`, the event log and the results.
use mathlib.Core.Path.{◌∙◌, subst}
use baa_system.Base.{
  ℕ, ◌≡◌, refl, ap, true, false, none, some, List, [], ◌++◌, arith, is_some, Bool-cases, ◌⊎◌, inl,
  inr, ◌==◌, ==→eq, ==_self, if◌then◌else◌,
}
use baa_system.Models.{AnalysisTask, Database, EventBody, success, failed}
use baa_system.Events.{append_many}
use baa_system.Repository.{
  UniqueKeys, save_task-UniqueKeys, get_by_id, get_by_id-save_task, events_of, has_complete_result,
  next_event_seq, save_task,
}
use baa_system.Tasks.World.{is_terminal, truthy, flush}
use baa_system.Log.Numbering.{IsNumbered, append_many-IsNumbered, events_of-append_many}
use baa_system.Log.Replay.{observe_all, replay, replay_from-append, replay_from-build_events}

-- A row: it has a finish time exactly when its status is terminal, a failed task has an error code,
-- and a successful one has a complete result.
pub record RowIsValid (db : Database) (t : AnalysisTask) : Type 0 where
  pub finished : is_some t.finished_at ≡ is_terminal t.task_status
  pub classified : t.task_status ≡ failed → truthy t.error_code ≡ true
  pub complete : t.task_status ≡ success → has_complete_result db t.id ≡ true

-- No two rows share a key, every row is valid, every log is numbered 1, 2, 3, ..., a task's log tells its status and whether
-- it is done, and there are no events without a task.
pub record IsValid (db : Database) : Type 0 where
  pub keyed : UniqueKeys db.tasks
  pub numbered : IsNumbered db
  pub row : (id : ℕ) (t : AnalysisTask) → get_by_id db id ≡ some t → RowIsValid db t
  pub logged :
      (id : ℕ) (t : AnalysisTask)
      → get_by_id db id ≡ some t
      → replay (events_of id db.events) ≡ some (t.task_status, is_terminal t.task_status)
  pub orphan : (id : ℕ) → get_by_id db id ≡ none → events_of id db.events ≡ []

-- The log of the flushed task, replayed.
pub replay-append_many :
    (db : Database) (now : ℕ) (task : AnalysisTask) (specs : List EventBody)
    → replay (events_of task.id db.events ++ (append_many db now task specs).1)
      ≡ observe_all (replay (events_of task.id db.events)) specs
unfolding append_many
replay-append_many db now task specs =
    replay_from-append none (events_of task.id db.events) (append_many db now task specs).1
    ∙ replay_from-build_events (replay (events_of task.id db.events)) task now
        (next_event_seq db task.id) specs

module _ (db : Database) (now : ℕ) (task : AnalysisTask) (specs : List EventBody)
    (stored : is_some (get_by_id db task.id) ≡ true) where
  abbrev saved : Database
  saved = record db { tasks = save_task task db.tasks }

  same_tasks : (id : ℕ) → get_by_id (flush db now task specs).0 id ≡ get_by_id saved id
  unfolding flush append_many get_by_id
  same_tasks id = refl

  same_results :
      (id : ℕ) → has_complete_result (flush db now task specs).0 id ≡ has_complete_result db id
  unfolding flush append_many has_complete_result
  same_results id = refl

  -- What a key gives after the flush.
  pub get_by_id-flush :
      (id : ℕ)
      → get_by_id (flush db now task specs).0 id
        ≡ (if task.id == id then some task else get_by_id db id)
  get_by_id-flush id = elim (Bool-cases (task.id == id)) [
    | inl e ↦
        rw (same_tasks id, get_by_id-save_task db id task, e)
          (ground (arith, stored, ap (λ k. get_by_id db k) (==→eq task.id id e)))
    | inr e ↦ rw (same_tasks id, get_by_id-save_task db id task, e)
  ]

  logs :
      (id : ℕ)
      → events_of id (flush db now task specs).0.events ≡ (
          if task.id == id
          then events_of id db.events ++ (append_many saved now task specs).1
          else events_of id db.events)
  unfolding flush
  logs id = events_of-append_many id saved now task specs

  -- A key gives the flushed row, or what it gave before.
  found-cases :
      (id : ℕ) (t : AnalysisTask)
      → get_by_id (flush db now task specs).0 id ≡ some t
      → ((task.id ≡ id) × (task ≡ t)) ⊎ (((task.id == id) ≡ false) × (get_by_id db id ≡ some t))
  found-cases id t h = ground (arith, get_by_id-flush id)

  RowIsValid-flush : (t : AnalysisTask) → RowIsValid db t → RowIsValid (flush db now task specs).0 t
  RowIsValid-flush t r = record {
    finished = r.finished;
    classified = r.classified;
    complete = λ e. same_results t.id ∙ r.complete e;
  }

  module _ (v : IsValid db) (ok : RowIsValid db task)
      (reported : observe_all (replay (events_of task.id db.events)) specs
        ≡ some (task.task_status, is_terminal task.task_status)) where
    row-flush :
        (id : ℕ) (t : AnalysisTask)
        → get_by_id (flush db now task specs).0 id ≡ some t
        → RowIsValid (flush db now task specs).0 t
    row-flush id t h = elim (found-cases id t h) [
      | inl own ↦ subst (RowIsValid (flush db now task specs).0) own.1 (RowIsValid-flush task ok)
      | inr other ↦ RowIsValid-flush t (v.row id t other.1)
    ]

    -- The flushed task's log tells the status of its new row.
    own_log :
        replay (events_of task.id (flush db now task specs).0.events)
        ≡ some (task.task_status, is_terminal task.task_status)
    own_log =
        rw (logs task.id, ==_self task.id) (replay-append_many saved now task specs ∙ reported)

    logged-flush :
        (id : ℕ) (t : AnalysisTask)
        → get_by_id (flush db now task specs).0 id ≡ some t
        → replay (events_of id (flush db now task specs).0.events)
          ≡ some (t.task_status, is_terminal t.task_status)
    logged-flush id t h = elim (found-cases id t h) [
      | inl own ↦ rw (← own.1, ← own.0) own_log
      | inr other ↦ rw (logs id, other.0) (v.logged id t other.1)
    ]

    orphan-flush :
        (id : ℕ)
        → get_by_id (flush db now task specs).0 id ≡ none
        → events_of id (flush db now task specs).0.events ≡ []
    orphan-flush id h = elim (Bool-cases (task.id == id)) [
      | inl e ↦ ground (arith, get_by_id-flush id)
      | inr e ↦ rw (logs id, e) (v.orphan id (ground (arith, get_by_id-flush id)))
    ]

    -- The flush of a valid row keeps the invariant, if the new events report its status.
    pub flush-IsValid : IsValid (flush db now task specs).0
    unfolding flush append_many
    flush-IsValid = record {
      keyed = save_task-UniqueKeys task db.tasks v.keyed;
      numbered = append_many-IsNumbered saved now task specs v.numbered;
      row = row-flush;
      logged = logged-flush;
      orphan = orphan-flush;
    }
