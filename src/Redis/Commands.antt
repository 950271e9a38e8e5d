-- ===== src/Redis/Commands.antt =====
-- The commands that the backend sends to Redis (`redis.asyncio.Redis`), as a client interface: the
-- server is not part of the repository. A command answers `none` where the client raises
-- `RedisError`. The keys are those of backend/app/workers/task_queue.py and
-- backend/app/workers/cancellation.py.
use baa_system.Base.{ℕ, Bool, true, false, Option, none, some}
use baa_system.Models.{TaskEvent}

pub data Key : Type 0 where
  -- `marker_key(task_id)`: "{queue}:enqueued:{task_id}"
  enqueued : ℕ → Key
  -- "insight:task_cancel:{task_id}"
  task_cancel : ℕ → Key

-- "{queue}" and "{queue}:processing"
pub data ListKey : Type 0 where
  ready processing : ListKey

abbrev pub Command : Type 0 → Type 0 → Type 0
Command S A = S → Option A × S

pub record RedisClient (S : Type 0) : Type 0 where
  -- SET key "1" NX EX ttl
  pub set_nx : Key → ℕ → Command S Bool
  -- SETEX key ttl "1"
  pub setex : Key → ℕ → Command S (Unit {0})
  pub delete : Key → Command S (Unit {0})
  pub exists : Key → Command S Bool
  -- LREM key count value: how many were removed
  pub lrem : ListKey → ℕ → ℕ → Command S ℕ
  pub lpush : ListKey → ℕ → Command S (Unit {0})
  pub rpush : ListKey → ℕ → Command S (Unit {0})
  -- BRPOPLPUSH source target timeout: `none` inside when the wait timed out
  pub brpoplpush : ListKey → ListKey → ℕ → Command S (Option ℕ)
  -- PUBLISH on the channel of a conversation
  pub publish : ℕ → TaskEvent → Command S (Unit {0})

infixl 5 ◌>>=◌ ◌>>◌
abbrev pub ◌>>=◌ : {S A B : Type 0} → Command S A → (A → Command S B) → Command S B
◌>>=◌ m f s = let (a, s') = m s in elim a [ none ↦ (none, s') | some x ↦ f x s' ]

abbrev pub ◌>>◌ : {S A B : Type 0} → Command S A → Command S B → Command S B
m >> k = m >>= λ _. k

abbrev pub pure : {S A : Type 0} → A → Command S A
pure a s = (some a, s)

abbrev pub raise : {S A : Type 0} → Command S A
raise s = (none, s)

-- `try: m except Exception: handler`
abbrev pub on_error : {S A : Type 0} → Command S A → Command S A → Command S A
on_error m handler s = let (a, s') = m s in elim a [ none ↦ handler s' | some x ↦ (some x, s') ]

-- `if not test: return early`, and otherwise go on.
abbrev pub when : {S A : Type 0} → Bool → A → Command S A → Command S A
when true early m = m
when false early m = pure early
