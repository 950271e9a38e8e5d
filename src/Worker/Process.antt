-- ===== src/Worker/Process.antt =====
-- `TaskWorker._process` and `process_once`.
pub mod Settling
use baa_system.Base.{ℕ, String, Bool, true, false, not, Option, none, some, if◌then◌else◌}
use baa_system.Models.{
  TaskStatus, queued, running, waiting_input, success, failed, cancelled, status_eq,
}
use baa_system.Cancellation.{is_requested}
use baa_system.Exceptions.{ok, err}
use baa_system.Queue
use baa_system.Redis.{RedisClient}
use baa_system.Repository.{get_by_id}
use baa_system.Settings.{Settings}
use baa_system.Tasks.World.{World}
use baa_system.Tasks.Transition.{TransitionArgs, transition}

-- `Literal["waiting_input", "success"]`
pub data OutcomeStatus : Type 0 where
  needs_input succeeded : OutcomeStatus

abbrev pub outcome_status : OutcomeStatus → TaskStatus
outcome_status needs_input = waiting_input
outcome_status succeeded = success

pub record WorkerOutcome : Type 0 where
  pub status : OutcomeStatus
  pub current_step : Option String
  pub clarification_question : Option String

-- How `executor.execute` ends: it returns, or raises `TaskCancelledError`, `TaskExecutionError` or
-- another exception.
pub data ExecutionEnd : Type 0 where
  returned : WorkerOutcome → ExecutionEnd
  task_cancelled : ExecutionEnd
  execution_error : String → String → ExecutionEnd
  crashed : ExecutionEnd

-- The protocol `TaskExecutor`. While it runs, other requests may change the world too.
abbrev pub TaskExecutor : Type 0 → Type 0
TaskExecutor S = ℕ → World S → ExecutionEnd × World S

-- The keyword arguments of the calls of `transition`.
abbrev pub no_args : TransitionArgs
no_args = record {
  current_step = none;
  error_code = none;
  error_message = none;
  clarification_question = none;
}

abbrev pub claim_args : TransitionArgs
claim_args = record no_args { current_step = some "agent_graph" }

abbrev pub failure_args : String → String → TransitionArgs
failure_args code message = record {
  current_step = none;
  error_code = some code;
  error_message = some message;
  clarification_question = none;
}

module _ {S : Type 0} (redis : RedisClient S) where
  -- `async with self.sessions() as session: await task_service.transition(...)`, whose result the
  -- worker ignores.
  unfoldable pub move_to : ℕ → ℕ → TaskStatus → TransitionArgs → World S → World S
  move_to now task_id target args w = (transition redis now task_id target args w).1

  -- The `transition` after the executor has returned: an exception of it is caught like one of the
  -- executor.
  unfoldable pub finish : ℕ → ℕ → TaskStatus → TransitionArgs → World S → World S
  unfolding move_to
  finish now task_id target args w =
      let (r, w') = transition redis now task_id target args w in
      elim r [
        | ok _ ↦ w'
        | err _ ↦
            move_to now task_id failed (failure_args "AGENT_EXECUTION_FAILED" "任务执行失败，请稍后重试") w'
      ]

  -- The end of a run that was not cancelled.
  unfoldable pub settle : ℕ → ℕ → ExecutionEnd → World S → World S
  unfolding finish move_to
  settle now task_id (returned outcome) w =
      finish now task_id (outcome_status outcome.status)
        (record {
          current_step = outcome.current_step;
          error_code = none;
          error_message = none;
          clarification_question = outcome.clarification_question;
        })
        w
  settle now task_id task_cancelled w = move_to now task_id cancelled no_args w
  settle now task_id (execution_error code message) w =
      move_to now task_id failed (failure_args code message) w
  settle now task_id crashed w =
      move_to now task_id failed (failure_args "AGENT_EXECUTION_FAILED" "任务执行失败，请稍后重试") w

module _ {S : Type 0} (redis : RedisClient S) (settings : Settings) where
  -- `await check_cancelled()` before going on; a requested cancellation ends the run.
  unfoldable pub unless_cancelled : ℕ → ℕ → (World S → World S) → World S → World S
  unfolding move_to
  unless_cancelled now task_id next w =
      let (requested, s) = is_requested redis settings w.db task_id w.redis in
      let w' : World S = record w { redis = s } in
      if requested then move_to redis now task_id cancelled no_args w' else next w'

  -- The second `check_cancelled` is made only when the executor has returned.
  unfoldable pub after_execution : ℕ → ℕ → ExecutionEnd → World S → World S
  unfolding unless_cancelled
  after_execution now task_id (returned outcome) w =
      unless_cancelled now task_id (settle redis now task_id (returned outcome)) w
  after_execution now task_id end w = settle redis now task_id end w

module _ {S : Type 0} (redis : RedisClient S) (settings : Settings)
    (executor : TaskExecutor S) where
  unfoldable pub run_claimed : ℕ → ℕ → World S → World S
  unfolding unless_cancelled
  run_claimed now task_id =
      unless_cancelled redis settings now task_id
        λ w. let (end, w') = executor task_id w in after_execution redis settings now task_id end w'

  unfoldable pub claim : ℕ → ℕ → ℕ → World S → World S
  claim claimed_at ended_at task_id w =
      let (r, w') = transition redis claimed_at task_id running claim_args w in
      elim r [
        | ok claimed ↦ elim claimed [ none ↦ w' | some _ ↦ run_claimed ended_at task_id w' ]
        | err _ ↦ w'
      ]

  -- The times are those of the claim and of the end of the run.
  unfoldable pub process : ℕ → ℕ → ℕ → World S → World S
  unfolding claim run_claimed after_execution settle
  process claimed_at ended_at task_id w = elim (get_by_id w.db task_id) [
    | none ↦ w
    | some task ↦
        if not (status_eq task.task_status queued)
        then w
        else if task.cancel_requested
        then move_to redis claimed_at task_id cancelled no_args w
        else claim claimed_at ended_at task_id w
  ]

-- How `_process` ends: a database or Redis exception that it does not catch is an infrastructure
-- failure.
pub data ProcessEnd : Type 0 where
  processed infrastructure_failure : ProcessEnd

module _ {S : Type 0} (redis : RedisClient S) (settings : Settings) where
  -- `none` where `process_once` raises; otherwise whether there was a task.
  unfoldable pub process_once :
      (ℕ → World S → ProcessEnd × World S) → Option ℕ → World S → Option Bool × World S
  process_once run block_seconds w =
      let (reserved, s) = Queue.reserve redis settings block_seconds w.redis in
      let w1 : World S = record w { redis = s } in
      elim reserved [
        | none ↦ (none, w1)
        | some none ↦ (some false, w1)
        | some (some task_id) ↦
            let (end, w2) = run task_id w1 in
            elim end [
              | processed ↦
                  let (acknowledged, s') = Queue.acknowledge redis settings task_id w2.redis in
                  let w3 : World S = record w2 { redis = s' } in
                  elim acknowledged [ none ↦ (none, w3) | some _ ↦ (some true, w3) ]
              | infrastructure_failure ↦
                  let (_, s') = Queue.release redis settings task_id w2.redis in
                  (none, record w2 { redis = s' })
            ]
      ]
