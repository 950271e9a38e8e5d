-- ===== src/Worker/Loop.antt =====
-- `TaskWorker.recover_queued_tasks` and the back-off of `run_forever`.
use baa_system.Base.{
  ℕ, ◌+◌, ◌-◌, ◌*◌, Bool, true, false, Option, none, some, List, [], ◌∷◌, min, if◌then◌else◌,
}
use baa_system.Models.{AnalysisTask, cancelled}
use baa_system.Queue.{enqueue}
use baa_system.Redis.{RedisClient}
use baa_system.Repository.{list_expired_waiting, list_queued}
use baa_system.Settings.{Settings}
use baa_system.Tasks.World.{World}
use baa_system.Tasks.Transition.{transition}
use baa_system.Worker.Process.{failure_args}

module _ {S : Type 0} (redis : RedisClient S) (settings : Settings) where
  -- The first loop: every expired task is cancelled, each in its own transaction.
  unfoldable pub cancel_expired : ℕ → List AnalysisTask → World S → World S
  cancel_expired now [] w = w
  cancel_expired now (task ∷ tasks) w =
      cancel_expired now tasks
        (transition redis now task.id cancelled
          (failure_args "CLARIFICATION_TIMEOUT" "等待补充信息超时，任务已取消") w).1

  -- The second loop counts the tasks that were not marked; a `RedisError` ends it.
  unfoldable pub enqueue_all : List AnalysisTask → ℕ → S → Option ℕ × S
  enqueue_all [] enqueued s = (some enqueued, s)
  enqueue_all (task ∷ tasks) enqueued s =
      let (added, s') = enqueue redis settings task.id s in
      let next = enqueue_all tasks (enqueued + 1) s' in
      let skip = enqueue_all tasks enqueued s' in
      elim added [ none ↦ (none, s') | some true ↦ next | some false ↦ skip ]

  -- The time of the worker's clock is `now`; `updated_at < now - timeout` is what expires.
  unfoldable pub recover_queued_tasks : ℕ → ℕ → World S → Option ℕ × World S
  recover_queued_tasks now limit w =
      let cutoff = now - settings.clarification_timeout_seconds in
      let w1 = cancel_expired now (list_expired_waiting w.db cutoff limit) w in
      let (enqueued, s) = enqueue_all (list_queued w1.db limit) 0 w1.redis in
      (enqueued, record w1 { redis = s })

-- One round of `run_forever`: how long to sleep, and the delay for the next failure.
unfoldable pub next_delay : Bool → ℕ → ℕ
next_delay true retry_delay_seconds = min (retry_delay_seconds * 2) 30
next_delay false retry_delay_seconds = 1

-- `run_forever` over the outcomes of its rounds (`true` is a `RedisError`): the sleeps.
unfoldable pub sleeps : ℕ → List Bool → List ℕ
unfolding next_delay
sleeps retry_delay_seconds [] = []
sleeps retry_delay_seconds (failing ∷ rounds) =
    let rest = sleeps (next_delay failing retry_delay_seconds) rounds in
    if failing then retry_delay_seconds ∷ rest else rest
