-- ===== src/Log/Numbering.antt =====
-- The numbers that `append_many` gives to the events of a task.
use mathlib.Core.Path.{subst}
use mathlib.Core.List.{append-nil}
use baa_system.Base.{
  ==→eq, ℕ, suc, ◌+◌, ◌≡◌, refl, Bool-cases, inl, inr, List, [], ◌∷◌, ◌++◌, arith, select, Numbered,
  Numbered-append, max_by-Numbered_lem, length, ◌==◌, if◌then◌else◌,
}
use baa_system.Models.{AnalysisTask, Database, EventBody, TaskEvent}
use baa_system.Events.{build_events, append_many}
use baa_system.Repository.{events_of, events_of-append, next_event_seq}

abbrev pub NumberedLog : List TaskEvent → Type 0
NumberedLog es = Numbered (λ (e : TaskEvent). e.event_seq) 1 es

-- Every task's log is numbered from 1.
abbrev pub IsNumbered : Database → Type 0
IsNumbered db = (id : ℕ) → NumberedLog (events_of id db.events)

build_events-Numbered :
    (task : AnalysisTask) (now n : ℕ) (specs : List EventBody)
    → Numbered (λ (e : TaskEvent). e.event_seq) n (build_events task now n specs)
unfolding build_events
build_events-Numbered task now n [] = tt
build_events-Numbered task now n (body ∷ specs) =
    (refl, build_events-Numbered task now (suc n) specs)

-- All of the new events belong to the task, and none to another.
events_of-build_events :
    (id : ℕ) (task : AnalysisTask) (now n : ℕ) (specs : List EventBody)
    → events_of id (build_events task now n specs)
      ≡ (if task.id == id then build_events task now n specs else [])
unfolding build_events events_of select
events_of-build_events id task now n [] = ground arith
events_of-build_events id task now n (body ∷ specs) =
    ground (arith, events_of-build_events id task now (suc n) specs)

-- The log of a task after `append_many` for some task.
pub events_of-append_many :
    (id : ℕ) (db : Database) (now : ℕ) (task : AnalysisTask) (specs : List EventBody)
    → events_of id (append_many db now task specs).0.events ≡ (
        if task.id == id
        then events_of id db.events ++ (append_many db now task specs).1
        else events_of id db.events)
unfolding append_many
events_of-append_many id db now task specs =
    rw
      (
        events_of-append id db.events (build_events task now (next_event_seq db task.id) specs),
        events_of-build_events id task now (next_event_seq db task.id) specs,
      )
      (elim (Bool-cases (task.id == id)) [ inl e ↦ rw e | inr e ↦ rw e (append-nil _) ])

-- The next free number is one more than the length of the log.
next_event_seq_lem :
    (db : Database) (id : ℕ)
    → IsNumbered db
    → next_event_seq db id ≡ 1 + length (events_of id db.events)
unfolding next_event_seq
next_event_seq_lem db id h =
    omega
      (arith, max_by-Numbered_lem (λ (e : TaskEvent). e.event_seq) (events_of id db.events) (h id))

own_log-Numbered :
    (db : Database) (now : ℕ) (task : AnalysisTask) (specs : List EventBody)
    → IsNumbered db
    → NumberedLog (events_of task.id db.events ++ (append_many db now task specs).1)
unfolding append_many
own_log-Numbered db now task specs h = rw (next_event_seq_lem db task.id h) (
    Numbered-append (λ (e : TaskEvent). e.event_seq) 1 (events_of task.id db.events) _ (h task.id)
      (build_events-Numbered task now (1 + length (events_of task.id db.events)) specs))

-- If every task's log is numbered 1, 2, 3, ..., then so it is after `append_many` has appended any
-- events for any task.
pub append_many-IsNumbered :
    (db : Database) (now : ℕ) (task : AnalysisTask) (specs : List EventBody)
    → IsNumbered db
    → IsNumbered (append_many db now task specs).0
append_many-IsNumbered db now task specs h id =
    rw (events_of-append_many id db now task specs) (elim (Bool-cases (task.id == id)) [
      | inl e ↦ rw e (
          subst (λ k. NumberedLog (events_of k db.events ++ (append_many db now task specs).1))
            (==→eq task.id id e) (own_log-Numbered db now task specs h))
      | inr e ↦ rw e (h id)
    ])
