-- ===== src/Queue.antt =====
-- `TaskQueue` (backend/app/workers/task_queue.py): a reliable queue on two Redis lists and one
-- marker key for each task.
pub mod Refinement
pub mod Order
pub mod Failures
pub mod Raising
pub mod AtMostOnce
use baa_system.Base.{ℕ, Bool, true, false, Option, ltb, or_else}
use baa_system.Redis.{
  RedisClient, Command, Key, enqueued, ready, processing, ◌>>=◌, ◌>>◌, pure, raise, on_error, when,
}
use baa_system.Settings.{Settings}

abbrev pub marker_key : ℕ → Key
marker_key task_id = enqueued task_id

module _ {S : Type 0} (redis : RedisClient S) (settings : Settings) where
  unfoldable pub enqueue : ℕ → Command S Bool
  enqueue task_id = do
    claimed ← redis.set_nx (marker_key task_id) settings.task_queue_marker_ttl_seconds
    when claimed false do
      on_error (redis.lrem processing 0 task_id >> redis.lpush ready task_id)
          (redis.delete (marker_key task_id) >> raise)
      pure true

  unfoldable pub reserve : Option ℕ → Command S (Option ℕ)
  reserve block_seconds =
      redis.brpoplpush ready processing
        (or_else block_seconds settings.task_worker_block_timeout_seconds)

  unfoldable pub acknowledge : ℕ → Command S (Unit {0})
  acknowledge task_id = redis.lrem processing 1 task_id >> redis.delete (marker_key task_id)

  unfoldable pub release : ℕ → Command S (Unit {0})
  release task_id = do
    removed ← redis.lrem processing 1 task_id
    when (ltb 0 removed) tt (redis.rpush ready task_id)
