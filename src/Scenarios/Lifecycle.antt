-- ===== src/Scenarios/Lifecycle.antt =====
-- The theorems on the task's life cycle and its log, applied to a task that is created, claimed,
-- retried and cancelled.
use baa_system.Base.{
  ◌≡◌, refl, ap, ◌∙◌, Bool, true, false, none, some, List, [], ◌∷◌, unique, select, scalar,
  order_by, ◌≢◌, take, drop, ◌*◌, arith,
}
use baa_system.Models.{AnalysisTask, EventBody, TaskEvent, running, success}
use baa_system.Exceptions.{ok}
use baa_system.Events.{append_many, publish}
use baa_system.Redis.{View}
use baa_system.Repository.{
  get_by_id, get_idempotent, get_active_for_conversation, lock_conversation_owned,
  owned_attachments, events_of, list_events,
}
use baa_system.Tasks.World.{World, enqueue_safely, is_terminal}
use baa_system.Tasks.Transition.{moved, transition, transition_specs}
use baa_system.Tasks.Create.{
  NewIds, TaskCreationOutcome, new_message, create_from_message, get_message, new_task, insert_rows,
  creation_specs,
}
use baa_system.Worker.Process.{claim_args, process, TaskExecutor, returned, succeeded}
use baa_system.Lifecycle.Invariant.{IsValid}
use baa_system.Models.{failed, TaskStatus}
use baa_system.Worker.Process.{failure_args}
use baa_system.Worker.Process.Settling.{HasStatus, is_settled, process_settles}
use baa_system.Worker.Loop.{sleeps}
use baa_system.Worker.Backoff.{WithinBounds, sleeps_bounded}
use baa_system.Log.Numbering.{IsNumbered, append_many-IsNumbered}
use baa_system.Log.Paging.{list_events_lem, read_pages, read_pages_lem}
use baa_system.Log.Replay.{observe_all}
use baa_system.Lifecycle.Moves.{get_by_id-after_move, observe-transition_specs, after_move}
use baa_system.Lifecycle.Calls.{Moved, transition-Moved, transition_moves, transition-IsValid}
use baa_system.Lifecycle.Branches.{insert}
use baa_system.Lifecycle.Idempotence.{IsAccepted, create_from_message_twice}
use baa_system.Scenarios.World.{
  queued_task, stored_queued, memory, opened, no_keys, settings, empty_db, empty_world,
  empty_db-IsValid, no_task, ids, request, queued_world, running_world, queued_world-IsValid,
}

running-IsValid : IsValid running_world.db
running-IsValid =
    transition-IsValid memory 20 12 running claim_args queued_world queued_world-IsValid

transition-Moved_example :
    Moved memory 20 12 running claim_args queued_world
      (transition memory 20 12 running claim_args queued_world)
transition-Moved_example = transition-Moved memory 20 12 running claim_args queued_world

not_success : (s : TaskStatus) → is_terminal s ≡ false → s ≢ success
not_success success h e = cc
not_success _ h e = cc

claimed_row :
    ((transition memory 20 12 running claim_args queued_world).0
      ≡ ok (some (moved 20 running claim_args queued_task)))
    × ((transition memory 20 12 running claim_args queued_world).1.db
        ≡ after_move queued_world.db 20 running claim_args queued_task)
claimed_row =
    transition_moves memory 20 12 running claim_args queued_task queued_world stored_queued
      (unfold new_task in refl) (λ e. absurd (not_success running refl e))

abbrev pub running_task : AnalysisTask
running_task = moved 20 running claim_args queued_task

pub stored_running : get_by_id running_world.db 12 ≡ some running_task
stored_running =
    ap (λ db. get_by_id db 12) claimed_row.1
    ∙ get_by_id-after_move queued_world.db 20 12 running claim_args queued_task stored_queued 12

observe-transition_specs_example :
    observe_all none (transition_specs 30 failed (failure_args "E" "失败") running_task)
    ≡ some (failed, is_terminal failed)
observe-transition_specs_example =
    observe-transition_specs 30 failed (failure_args "E" "失败") running_task none

abbrev executor : TaskExecutor View
executor id w = (
  returned (record { status = succeeded; current_step = none; clarification_question = none }),
  w,
)

process_settles_example :
    HasStatus is_settled 12 (process memory settings executor 20 30 12 queued_world).db
process_settles_example =
    process_settles memory settings executor 20 30 12 (λ w h. h) queued_world queued_task
      stored_queued (unfold new_task in refl)

append_many-IsNumbered_example :
    IsNumbered
      (append_many running_world.db 30 running_task (EventBody.task_status running none ∷ [])).0
append_many-IsNumbered_example =
    append_many-IsNumbered running_world.db 30 running_task
      (EventBody.task_status running none ∷ []) running-IsValid.numbered

list_events_lem_example :
    list_events running_world.db 12 1 10 ≡ take 10 (drop 1 (events_of 12 running_world.db.events))
list_events_lem_example = list_events_lem running_world.db 12 1 10 running-IsValid.numbered

read_pages_lem_example :
    read_pages settings running_world.db running_task 2 3 1
    ≡ take (3 * 2) (drop 1 (events_of running_task.id running_world.db.events))
read_pages_lem_example =
    read_pages_lem settings running_world.db running_task running-IsValid.numbered 2 3 1

sleeps_bounded_example : WithinBounds (sleeps 1 (true ∷ true ∷ false ∷ true ∷ []))
sleeps_bounded_example =
    sleeps_bounded 1 (true ∷ true ∷ false ∷ true ∷ []) (omega arith) (omega arith)

accepted : IsAccepted empty_db 7 request opened
accepted = record {
  locked = unfold lock_conversation_owned scalar in refl;
  unseen = unfold get_idempotent scalar in refl;
  idle = unfold get_active_for_conversation select order_by scalar in refl;
  attached = unfold owned_attachments unique in refl;
}

abbrev first_events : List TaskEvent
first_events =
    (append_many (insert_rows 10 ids 7 request opened empty_db) 10 queued_task
      (creation_specs ids request (new_message empty_db ids request).seq_no)).1

abbrev answer : Bool → TaskCreationOutcome
answer created = record {
  task = queued_task;
  message = new_message empty_db ids request;
  events = first_events;
  created = created;
}

abbrev first_world : World View
first_world = record {
  db = insert 10 ids 7 request opened empty_db;
  redis = publish memory first_events (enqueue_safely memory settings queued_task.id no_keys);
}

abbrev other_ids : NewIds
other_ids = record { message_id = 31; task_id = 32; thread_id = 33 }

create_from_message_twice_example :
    (create_from_message memory settings 10 ids none 7 request empty_world
      ≡ (ok (answer true), first_world))
    × (create_from_message memory settings 50 other_ids none 7 request first_world ≡ (
      ok (answer false),
      record first_world {
        redis = enqueue_safely memory settings queued_task.id first_world.redis;
      },
    ))
create_from_message_twice_example =
    create_from_message_twice memory settings 10 ids 7 request opened empty_world accepted
      empty_db-IsValid (no_task 12) (unfold get_message scalar in refl) 50 other_ids none request
      refl refl
