-- ===== src/Worker/Process/Settling.antt =====
-- What a round of the worker does to the task that it takes from the queue.
use mathlib.Core.Path.{◌∙◌, subst}
use baa_system.Base.{
  ℕ, ◌≡◌, refl, sym, ap, Bool, true, ◌||◌, Option, some, arith, by_test, Bool-cases, inl, inr,
  ==_self, if◌then◌else◌,
}
use baa_system.Models.{
  AnalysisTask, Database, TaskStatus, queued, running, waiting_input, success, failed, cancelled,
  status_eq,
}
use baa_system.Cancellation.{is_requested}
use baa_system.Exceptions.{ok, err, Error}
use baa_system.Redis.{RedisClient}
use baa_system.Repository.{get_by_id, has_complete_result}
use baa_system.Settings.{Settings}
use baa_system.Tasks.World.{World, is_terminal, allowed_transition}
use baa_system.Tasks.Transition.{TransitionArgs, moved, transition}
use baa_system.Worker.Process.{
  OutcomeStatus, needs_input, succeeded, finish, outcome_status, ExecutionEnd, returned,
  task_cancelled, execution_error, crashed, TaskExecutor, no_args, claim_args, failure_args,
  process, move_to, settle, unless_cancelled, after_execution, run_claimed, claim,
}
use baa_system.Lifecycle.Moves.{moved_key, get_by_id-after_move}
use baa_system.Lifecycle.Calls.{transition_moves, transition_incomplete}

-- The task is stored with a status for which `p` holds.
abbrev pub HasStatus : (TaskStatus → Bool) → ℕ → Database → Type 0
HasStatus p id db = (t : AnalysisTask) × (get_by_id db id ≡ some t) × (p t.task_status ≡ true)

abbrev pub is_running : TaskStatus → Bool
is_running s = status_eq s running

-- A run has come to its end, or waits for the user.
abbrev pub is_settled : TaskStatus → Bool
is_settled s = status_eq s waiting_input || is_terminal s

module _ {S : Type 0} (redis : RedisClient S) where
  -- After an allowed call of `transition` the task has the target status.
  HasStatus-transition :
      (now id : ℕ) (target : TaskStatus) (args : TransitionArgs) (t : AnalysisTask) (w : World S)
      (p : TaskStatus → Bool)
      → get_by_id w.db id ≡ some t
      → allowed_transition t.task_status target ≡ true
      → (target ≡ success → has_complete_result w.db t.id ≡ true)
      → p target ≡ true
      → HasStatus p id (transition redis now id target args w).1.db
  HasStatus-transition now id target args t w p h e c q =
      let (_, same) = transition_moves redis now id target args t w h e c in
      (
        moved now target args t,
        ap (λ db. get_by_id db id) same
            ∙ get_by_id-after_move w.db now id target args t h id
            ∙ ap (λ b. if b then some (moved now target args t) else get_by_id w.db id)
                (==_self id),
        subst (λ s. p s ≡ true) (sym (moved_key now target args t).1) q,
      )

  -- From `running`, a call that is allowed settles the task unless it stays running.
  settled_by :
      (now id : ℕ) (target : TaskStatus) (args : TransitionArgs) (w : World S)
      → allowed_transition running target ≡ true
      → is_settled target ≡ true
      → (target ≡ success → ⊥)
      → HasStatus is_running id w.db
      → HasStatus is_settled id (transition redis now id target args w).1.db
  settled_by now id target args w e q n (t, h, r) =
      HasStatus-transition now id target args t w is_settled h (ground arith) (λ s. absurd (n s)) q

  finish_ok :
      (now id : ℕ) (target : TaskStatus) (args : TransitionArgs) (w : World S)
      {a : Option AnalysisTask}
      → (transition redis now id target args w).0 ≡ ok a
      → finish redis now id target args w ≡ (transition redis now id target args w).1
  unfolding finish
  finish_ok now id target args w q = rw (q, finish)

  finish_err :
      (now id : ℕ) (target : TaskStatus) (args : TransitionArgs) (w w' : World S) {e : Error}
      → transition redis now id target args w ≡ (err e, w')
      → finish redis now id target args w
        ≡ (transition redis now id failed
            (failure_args "AGENT_EXECUTION_FAILED" "任务执行失败，请稍后重试")
            w').1
  unfolding finish move_to
  finish_err now id target args w w' q =
      rw (ap (λ r. r.0) q, finish)
        (ap
          (λ x.
            (transition redis now id failed (failure_args "AGENT_EXECUTION_FAILED" "任务执行失败，请稍后重试")
              x).1)
          (ap (λ r. r.1) q))

  -- The final move: waiting for input, or success; a missing result makes it a failure.
  finish_settles :
      (now id : ℕ) (status : OutcomeStatus) (args : TransitionArgs) (w : World S)
      → HasStatus is_running id w.db
      → HasStatus is_settled id (finish redis now id (outcome_status status) args w).db
  finish_settles now id needs_input args w (t, h, r) =
      rw
        (finish_ok now id waiting_input args w
          (transition_moves redis now id waiting_input args t w h (ground arith) (λ s. cc)).0)
        (HasStatus-transition now id waiting_input args t w is_settled h (ground arith) (λ s. cc)
          refl)
  finish_settles now id succeeded args w (t, h, r) =
      elim (Bool-cases (has_complete_result w.db t.id)) [
        | inl c ↦
            rw
              (finish_ok now id success args w
                (transition_moves redis now id success args t w h (ground arith) (λ _. c)).0)
              (HasStatus-transition now id success args t w is_settled h (ground arith) (λ _. c)
                refl)
        | inr c ↦
            rw
              (finish_err now id success args w w
                (transition_incomplete redis now id args t w h (ground arith) c))
              (settled_by now id failed _ w refl refl (λ e. cc) (t, h, r))
      ]

  settle_lem :
      (now id : ℕ) (end : ExecutionEnd) (w : World S)
      → HasStatus is_running id w.db
      → HasStatus is_settled id (settle redis now id end w).db
  unfolding settle move_to
  settle_lem now id (returned outcome) w h = finish_settles now id outcome.status _ w h
  settle_lem now id task_cancelled w h = settled_by now id cancelled no_args w refl refl (λ e. cc) h
  settle_lem now id (execution_error code message) w h =
      settled_by now id failed _ w refl refl (λ e. cc) h
  settle_lem now id crashed w h = settled_by now id failed _ w refl refl (λ e. cc) h

module _ {S : Type 0} (redis : RedisClient S) (settings : Settings) where
  -- A cancellation that is requested settles a running task too.
  unless_cancelled_lem :
      (now id : ℕ) (next : World S → World S) (w : World S)
      → HasStatus is_running id w.db
      → ((w' : World S) → w'.db ≡ w.db → HasStatus is_settled id (next w').db)
      → HasStatus is_settled id (unless_cancelled redis settings now id next w).db
  unfolding unless_cancelled move_to
  unless_cancelled_lem now id next w h k =
      let (requested, s) = is_requested redis settings w.db id w.redis in
      by_test (λ (x : World S). HasStatus is_settled id x.db) requested _ _
        (λ _.
          settled_by redis now id cancelled no_args (record w { redis = s }) refl refl (λ e. cc) h)
        λ _. k (record w { redis = s }) refl

  after_execution_lem :
      (now id : ℕ) (end : ExecutionEnd) (w : World S)
      → HasStatus is_running id w.db
      → HasStatus is_settled id (after_execution redis settings now id end w).db
  unfolding after_execution
  after_execution_lem now id (returned outcome) w h =
      unless_cancelled_lem now id (settle redis now id (returned outcome)) w h
        λ w' same. settle_lem redis now id (returned outcome) w' (rw same h)
  after_execution_lem now id end w h = settle_lem redis now id end w h

module _ {S : Type 0} (redis : RedisClient S) (settings : Settings) (executor : TaskExecutor S)
    (claimed_at ended_at id : ℕ) where
  process_queued :
      (w : World S) (t : AnalysisTask)
      → get_by_id w.db id ≡ some t
      → status_eq t.task_status queued ≡ true
      → process redis settings executor claimed_at ended_at id w ≡ (
          if t.cancel_requested
          then (transition redis claimed_at id cancelled no_args w).1
          else claim redis settings executor claimed_at ended_at id w)
  unfolding process move_to
  process_queued w t h q = rw (h, process) (rw q)

  claim_moves :
      (w : World S) {a : AnalysisTask}
      → (transition redis claimed_at id running claim_args w).0 ≡ ok (some a)
      → claim redis settings executor claimed_at ended_at id w
        ≡ run_claimed redis settings executor ended_at id
            (transition redis claimed_at id running claim_args w).1
  unfolding claim
  claim_moves w q = rw (q, claim)

  module _
      (leaves_running : (w : World S)
        → HasStatus is_running id w.db
        → HasStatus is_running id (executor id w).1.db) where
    run_claimed_lem :
        (w : World S)
        → HasStatus is_running id w.db
        → HasStatus is_settled id (run_claimed redis settings executor ended_at id w).db
    unfolding run_claimed
    run_claimed_lem w h =
        unless_cancelled_lem redis settings ended_at id
          (λ x. let (end, x') = executor id x in after_execution redis settings ended_at id end x')
          w h
          λ w' same.
            after_execution_lem redis settings ended_at id (executor id w').0 (executor id w').1
              (leaves_running w' (rw same h))

    -- If the executor leaves the task running, then a queued task that the worker takes has settled
    -- when `_process` returns: it waits for input or is `success`, `failed` or `cancelled`, however
    -- the execution ended and whatever the Redis server answered.
    pub process_settles :
        (w : World S) (t : AnalysisTask)
        → get_by_id w.db id ≡ some t
        → t.task_status ≡ queued
        → HasStatus is_settled id (process redis settings executor claimed_at ended_at id w).db
    process_settles w t h q =
        let queued_now : status_eq t.task_status queued ≡ true = ground arith in
        let may_run : allowed_transition t.task_status running ≡ true = ground arith in
        let may_cancel : allowed_transition t.task_status cancelled ≡ true = ground arith in
        rw (process_queued w t h queued_now) (
          by_test (λ (x : World S). HasStatus is_settled id x.db) t.cancel_requested _ _
            (λ _.
              HasStatus-transition redis claimed_at id cancelled no_args t w is_settled h may_cancel
                (λ s. cc) refl)
            λ _.
              rw
                (claim_moves w
                  (transition_moves redis claimed_at id running claim_args t w h may_run
                    (λ s. cc)).0)
                (run_claimed_lem (transition redis claimed_at id running claim_args w).1 (
                  HasStatus-transition redis claimed_at id running claim_args t w is_running h
                    may_run (λ s. cc) refl)))
