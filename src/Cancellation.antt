-- ===== src/Cancellation.antt =====
-- `CancellationService` (backend/app/workers/cancellation.py).
use baa_system.Base.{ℕ, Bool, true, false, none, some}
use baa_system.Models.{Database}
use baa_system.Redis.{RedisClient, Command, task_cancel}
use baa_system.Repository.{get_by_id}
use baa_system.Settings.{Settings}

-- `bool(task and task.cancel_requested)`
unfoldable pub stored_request : Database → ℕ → Bool
stored_request db task_id = elim (get_by_id db task_id) [
  | none ↦ false
  | some task ↦ task.cancel_requested
]

module _ {S : Type 0} (redis : RedisClient S) (settings : Settings) where
  unfoldable pub request : ℕ → Command S (Unit {0})
  request task_id = redis.setex (task_cancel task_id) settings.task_cancel_ttl_seconds

  unfoldable pub clear : ℕ → Command S (Unit {0})
  clear task_id = redis.delete (task_cancel task_id)

  -- A failing `exists` degrades to the database.
  unfoldable pub is_requested : Database → ℕ → S → Bool × S
  is_requested db task_id s =
      let (marked, s') = redis.exists (task_cancel task_id) s in
      elim marked [
        | none ↦ (stored_request db task_id, s')
        | some true ↦ (true, s')
        | some false ↦ (stored_request db task_id, s')
      ]
