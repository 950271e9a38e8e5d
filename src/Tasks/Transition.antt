-- ===== src/Tasks/Transition.antt =====
-- `TaskService.transition`: the state machine's only way to move a task for the worker.
use baa_system.Base.{
  ℕ, ◌+◌, String, false, not, ◌&&◌, ◌||◌, Option, none, some, List, [], ◌∷◌, ◌++◌, is_some,
  if◌then◌else◌,
}
use baa_system.Models.{
  AnalysisTask, EventBody, TaskStatus, queued, running, waiting_input, success, failed, status_eq,
}
use baa_system.Events.{publish}
use baa_system.Exceptions.{ok, err, Action, app_error, internal_error}
use baa_system.Redis.{RedisClient}
use baa_system.Repository.{get_by_id, has_complete_result}
use baa_system.Tasks.World.{World, is_terminal, allowed_transition, truthy, flush}

-- The keyword arguments of `transition`.
pub record TransitionArgs : Type 0 where
  pub current_step : Option String
  pub error_code : Option String
  pub error_message : Option String
  pub clarification_question : Option String

abbrev pub or_text : Option String → String → Option String
or_text o default = if truthy o then o else some default

-- `if target_status == "queued":`
reset : TaskStatus → AnalysisTask → AnalysisTask
reset failed t = record t {
  finished_at = none;
  cancel_requested = false;
  error_code = none;
  error_message = none;
  retry_count = t.retry_count + 1;
}
reset _ t = record t {
  finished_at = none;
  cancel_requested = false;
  error_code = none;
  error_message = none;
}

-- The assignments to the row, in the order of the source.
unfoldable pub moved : ℕ → TaskStatus → TransitionArgs → AnalysisTask → AnalysisTask
unfolding reset
moved now target args task =
    let t1 : AnalysisTask = record task {
      task_status = target;
      current_step = args.current_step;
      updated_at = now;
    } in
    let t2 : AnalysisTask = if status_eq target queued then reset task.task_status t1 else t1 in
    let t3 : AnalysisTask =
      if status_eq target running && not (is_some t2.started_at)
      then record t2 { started_at = some now }
      else t2 in
    let t4 : AnalysisTask =
      if is_terminal target then record t3 { finished_at = some now } else t3 in
    if status_eq target failed || truthy args.error_code
    then record t4 {
      error_code = or_text args.error_code "INTERNAL_ERROR";
      error_message = or_text args.error_message "任务执行失败";
    }
    else t4

error_spec : AnalysisTask → List EventBody
error_spec task = elim task.error_code [
  | none ↦ []
  | some code ↦ EventBody.error code task.error_message ∷ []
]

question_spec : Option String → List EventBody
question_spec none = []
question_spec (some question) = EventBody.clarification_required question ∷ []

-- `event_specs`, for the row after the assignments.
unfoldable pub transition_specs : ℕ → TaskStatus → TransitionArgs → AnalysisTask → List EventBody
unfolding error_spec question_spec
transition_specs now target args task =
    EventBody.task_status target args.current_step
    ∷ ((if truthy task.error_code && is_terminal target then error_spec task else [])
        ++ ((if status_eq target waiting_input && truthy args.clarification_question
              then question_spec args.clarification_question
              else [])
            ++ (if is_terminal target then EventBody.done target now ∷ [] else [])))

module _ {S : Type 0} (redis : RedisClient S) where
  -- From the locked row on.
  unfoldable pub transition_row :
      ℕ → AnalysisTask → TaskStatus → TransitionArgs → Action (World S) (Option AnalysisTask)
  transition_row now task target args w =
      if not (allowed_transition task.task_status target)
      then (ok none, w)
      else if status_eq target success && not (has_complete_result w.db task.id)
      then (err (app_error internal_error "任务缺少完整结果，不能标记成功" 500), w)
      else let task' = moved now target args task in
        let (db', events) = flush w.db now task' (transition_specs now target args task') in
        (ok (some task'), record { db = db'; redis = publish redis events w.redis })

  unfoldable pub transition :
      ℕ → ℕ → TaskStatus → TransitionArgs → Action (World S) (Option AnalysisTask)
  transition now task_id target args w = elim (get_by_id w.db task_id) [
    | none ↦ (ok none, w)
    | some task ↦ transition_row now task target args w
  ]
