-- ===== src/Lifecycle/Creation.antt =====
-- The invariant through `create_from_message`.
use mathlib.Core.Path.{◌∙◌, subst}
use baa_system.Base.{
  ℕ, ◌≡◌, refl, sym, ap, false, Option, none, some, List, [], ◌++◌, arith, Bool-cases, ◌⊎◌, inl,
  inr, ◌==◌, ==_self, if◌then◌else◌,
}
use baa_system.Models.{AnalysisTask, Conversation, Database, EventBody}
use baa_system.Events.{append_many}
use baa_system.Redis.{RedisClient}
use baa_system.Repository.{
  get_by_id, get_by_id-insert, events_of, has_complete_result, insert-UniqueKeys, by_id,
}
use baa_system.Settings.{Settings}
use baa_system.Tasks.World.{World, is_terminal}
use baa_system.Tasks.Create.{
  UserMessageEvent, NewIds, new_task, insert_rows, creation_specs, create_from_message,
}
use baa_system.Log.Numbering.{append_many-IsNumbered, events_of-append_many}
use baa_system.Log.Replay.{observe_all, replay}
use baa_system.Lifecycle.Branches.{create_from_message-branches}
use baa_system.Lifecycle.Invariant.{RowIsValid, IsValid, replay-append_many}

module _ (db : Database) (now : ℕ) (ids : NewIds) (user_id : ℕ) (request : UserMessageEvent)
    (conversation : Conversation) (seq_no : ℕ) (v : IsValid db)
    (fresh : get_by_id db ids.task_id ≡ none) where
  abbrev task : AnalysisTask
  task = new_task now ids user_id request

  abbrev rows : Database
  rows = insert_rows now ids user_id request conversation db

  abbrev specs : List EventBody
  specs = creation_specs ids request seq_no

  abbrev after : Database
  after = (append_many rows now task specs).0

  task_key : task.id ≡ ids.task_id
  unfolding new_task
  task_key = refl

  found :
      (id : ℕ)
      → get_by_id after id ≡ elim (get_by_id db id) [
        | none ↦ if task.id == id then some task else none
        | some u ↦ some u
      ]
  unfolding append_many insert_rows get_by_id
  found id = get_by_id-insert db id task

  found-cases :
      (id : ℕ) (t : AnalysisTask)
      → get_by_id after id ≡ some t
      → ((task.id ≡ id) × (task ≡ t)) ⊎ (((task.id == id) ≡ false) × (get_by_id db id ≡ some t))
  found-cases id t h = ground (arith, found id, task_key, ap (get_by_id db) (sym task_key), fresh)

  logs :
      (id : ℕ)
      → events_of id after.events ≡ (
          if task.id == id
          then events_of id db.events ++ (append_many rows now task specs).1
          else events_of id db.events)
  unfolding insert_rows
  logs id = events_of-append_many id rows now task specs

  old_row : (t : AnalysisTask) → RowIsValid db t → RowIsValid after t
  unfolding append_many insert_rows has_complete_result
  old_row t r = record { finished = r.finished; classified = r.classified; complete = r.complete }

  new_row : RowIsValid after task
  unfolding new_task
  new_row = ground arith

  row-insert : (id : ℕ) (t : AnalysisTask) → get_by_id after id ≡ some t → RowIsValid after t
  row-insert id t h = elim (found-cases id t h) [
    | inl own ↦ subst (RowIsValid after) own.1 new_row
    | inr other ↦ old_row t (v.row id t other.1)
  ]

  pub no_log : events_of task.id rows.events ≡ []
  unfolding insert_rows
  no_log = v.orphan task.id (rw task_key fresh)

  reported : observe_all (replay []) specs ≡ some (task.task_status, is_terminal task.task_status)
  unfolding creation_specs new_task
  reported = refl

  own_log :
      replay (events_of task.id after.events)
      ≡ some (task.task_status, is_terminal task.task_status)
  unfolding insert_rows
  own_log =
      rw (logs task.id, ==_self task.id)
        (replay-append_many rows now task specs
          ∙ ap (λ es. observe_all (replay es) specs) no_log
          ∙ reported)

  logged-insert :
      (id : ℕ) (t : AnalysisTask)
      → get_by_id after id ≡ some t
      → replay (events_of id after.events) ≡ some (t.task_status, is_terminal t.task_status)
  logged-insert id t h = elim (found-cases id t h) [
    | inl own ↦ rw (← own.1, ← own.0) own_log
    | inr other ↦ rw (logs id, other.0) (v.logged id t other.1)
  ]

  orphan-insert : (id : ℕ) → get_by_id after id ≡ none → events_of id after.events ≡ []
  orphan-insert id h = elim (Bool-cases (task.id == id)) [
    | inl e ↦ ground (arith, found id)
    | inr e ↦ rw (logs id, e) (v.orphan id (ground (arith, found id)))
  ]

  fresh_row : by_id task.id db.tasks ≡ none
  unfolding get_by_id new_task
  fresh_row = fresh

  pub insert-IsValid : IsValid after
  unfolding append_many insert_rows
  insert-IsValid = record {
    keyed = insert-UniqueKeys task db.tasks fresh_row v.keyed;
    numbered = append_many-IsNumbered rows now task specs v.numbered;
    row = row-insert;
    logged = logged-insert;
    orphan = orphan-insert;
  }

module _ {S : Type 0} (redis : RedisClient S) (settings : Settings) where
  -- If the new task's key is not in use, and the database that the session reads after an
  -- `IntegrityError` satisfies the invariant, `create_from_message` keeps it on every branch.
  pub create_from_message-IsValid :
      (now : ℕ) (ids : NewIds) (race : Option Database) (user_id : ℕ) (request : UserMessageEvent)
      (w : World S)
      → IsValid w.db
      → get_by_id w.db ids.task_id ≡ none
      → ((db : Database) → race ≡ some db → IsValid db)
      → IsValid (create_from_message redis settings now ids race user_id request w).1.db
  create_from_message-IsValid now ids race user_id request w v fresh other =
      create_from_message-branches redis settings IsValid w v now ids race user_id request other
        λ conversation _. insert-IsValid w.db now ids user_id request conversation _ v fresh
