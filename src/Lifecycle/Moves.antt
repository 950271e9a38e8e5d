-- ===== src/Lifecycle/Moves.antt =====
-- The move of a stored task along an edge of `ALLOWED_TRANSITIONS`, as `TaskService.transition`
-- makes it: the row, its events and the invariant.
use mathlib.Core.Path.{◌∙◌, subst}
use baa_system.Base.{◌==◌, if◌then◌else◌, ℕ, ◌≡◌, sym, ap, true, some, arith, is_some}
use baa_system.Models.{AnalysisTask, Database, TaskStatus, queued, success, failed}
use baa_system.Exceptions.{Error, app_error, internal_error}
use baa_system.Repository.{get_by_id, get_by_id_key, has_complete_result, events_of}
use baa_system.Tasks.World.{is_terminal, allowed_transition, truthy, flush}
use baa_system.Tasks.Transition.{TransitionArgs, moved, transition_specs}
use baa_system.Log.Replay.{View, observe_all, replay}
use baa_system.Lifecycle.Invariant.{RowIsValid, IsValid, flush-IsValid, get_by_id-flush}

-- The key stays, and the status is the target.
pub moved_key :
    (now : ℕ) (target : TaskStatus) (args : TransitionArgs) (t : AnalysisTask)
    → ((moved now target args t).id ≡ t.id) × ((moved now target args t).task_status ≡ target)
unfolding moved
moved_key now queued args t = ground arith
moved_key now _ args t = ground arith

-- A client that replays the events of a transition knows the new status, and whether it is final.
pub observe-transition_specs :
    (now : ℕ) (target : TaskStatus) (args : TransitionArgs) (t : AnalysisTask) (view : View)
    → observe_all view (transition_specs now target args t) ≡ some (target, is_terminal target)
unfolding transition_specs
observe-transition_specs now queued args t view = ground arith
observe-transition_specs now _ args t view = ground arith

moved_finished :
    (now : ℕ) (target : TaskStatus) (args : TransitionArgs) (t : AnalysisTask)
    → allowed_transition t.task_status target ≡ true
    → is_some t.finished_at ≡ is_terminal t.task_status
    → is_some (moved now target args t).finished_at ≡ is_terminal target
unfolding moved
moved_finished now queued args t allowed r = ground arith
moved_finished now _ args t allowed r = ground arith

moved_classified :
    (now : ℕ) (args : TransitionArgs) (t : AnalysisTask)
    → truthy (moved now failed args t).error_code ≡ true
unfolding moved
moved_classified now args t = ground arith

-- The row after an allowed move is valid; for `success` the results must be there.
moved-RowIsValid :
    (db : Database) (now : ℕ) (target : TaskStatus) (args : TransitionArgs) (t : AnalysisTask)
    → allowed_transition t.task_status target ≡ true
    → (target ≡ success → has_complete_result db t.id ≡ true)
    → RowIsValid db t
    → RowIsValid db (moved now target args t)
moved-RowIsValid db now target args t allowed complete r =
    let (key, status) = moved_key now target args t in
    record {
      finished =
          subst (λ s. is_some (moved now target args t).finished_at ≡ is_terminal s) (sym status)
            (moved_finished now target args t allowed r.finished);
      classified = λ e.
          subst (λ s. truthy (moved now s args t).error_code ≡ true) (sym (sym status ∙ e))
            (moved_classified now args t);
      complete =
          λ e. subst (λ k. has_complete_result db k ≡ true) (sym key) (complete (sym status ∙ e));
    }

-- The database after an allowed move of a stored task.
abbrev pub after_move : Database → ℕ → TaskStatus → TransitionArgs → AnalysisTask → Database
after_move db now target args t =
    let t' = moved now target args t in (flush db now t' (transition_specs now target args t')).0

pub move-IsValid :
    (db : Database) (now id : ℕ) (target : TaskStatus) (args : TransitionArgs) (t : AnalysisTask)
    → IsValid db
    → get_by_id db id ≡ some t
    → allowed_transition t.task_status target ≡ true
    → (target ≡ success → has_complete_result db t.id ≡ true)
    → IsValid (after_move db now target args t)
move-IsValid db now id target args t v h allowed complete =
    let t' = moved now target args t in
    let (key, status) = moved_key now target args t in
    flush-IsValid db now t' (transition_specs now target args t')
      (rw (key, get_by_id_key db id t h) (ap is_some h)) v
      (moved-RowIsValid db now target args t allowed complete (v.row id t h))
      (observe-transition_specs now target args t' (replay (events_of t'.id db.events))
        ∙ ap {B = View} (λ s. some (s, is_terminal s)) (sym status))

abbrev pub incomplete_result : Error
incomplete_result = app_error internal_error "任务缺少完整结果，不能标记成功" 500

-- After the move the key gives the moved row, and every other key what it gave before.
pub get_by_id-after_move :
    (db : Database) (now id : ℕ) (target : TaskStatus) (args : TransitionArgs) (t : AnalysisTask)
    → get_by_id db id ≡ some t
    → (other : ℕ)
    → get_by_id (after_move db now target args t) other
      ≡ (if id == other then some (moved now target args t) else get_by_id db other)
get_by_id-after_move db now id target args t h other =
    let t' = moved now target args t in
    let (key, _) = moved_key now target args t in
    let own : t'.id ≡ id = key ∙ get_by_id_key db id t h in
    get_by_id-flush db now t' (transition_specs now target args t') (rw own (ap is_some h)) other
    ∙ ap (λ k. if k == other then some t' else get_by_id db other) own
