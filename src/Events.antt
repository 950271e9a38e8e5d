-- ===== src/Events.antt =====
-- `EventService` (backend/app/services/event_service.py): the numbered event log of a task.
use baa_system.Base.{ℕ, suc, Option, List, [], ◌∷◌, ◌++◌, or_else}
use baa_system.Models.{AnalysisTask, Database, EventBody, TaskEvent}
use baa_system.Redis.{RedisClient}
use baa_system.Repository.{next_event_seq, list_events}
use baa_system.Settings.{Settings}

-- The list of `TaskEvent(...)` with `event_seq=first_seq + offset`.
unfoldable pub build_events : AnalysisTask → ℕ → ℕ → List EventBody → List TaskEvent
build_events task now first_seq [] = []
build_events task now first_seq (body ∷ specs) =
    record {
      task_id = task.id;
      conversation_id = task.conversation_id;
      event_seq = first_seq;
      body = body;
      created_at = now;
    }
    ∷ build_events task now (suc first_seq) specs

-- `append_many` with `already_locked=True`, as every caller has it: the log with the new events,
-- and the events.
unfoldable pub append_many :
    Database → ℕ → AnalysisTask → List EventBody → Database × List TaskEvent
append_many db now task specs =
    let events = build_events task now (next_event_seq db task.id) specs in
    (record db { events = db.events ++ events }, events)

pub record TaskEventList : Type 0 where
  pub items : List TaskEvent
  pub last_event_seq : ℕ

-- `items[-1].event_seq if items else after_seq`
unfoldable pub last_seq : ℕ → List TaskEvent → ℕ
last_seq after_seq [] = after_seq
last_seq after_seq (e ∷ es) = last_seq e.event_seq es

unfoldable pub list_owned : Settings → Database → AnalysisTask → ℕ → Option ℕ → TaskEventList
list_owned settings db task after_seq limit =
    let items = list_events db task.id after_seq (or_else limit settings.task_event_replay_limit) in
    record { items = items; last_event_seq = last_seq after_seq items }

-- `publish`: a `RedisError` on one event is logged, and the next is tried.
module _ {S : Type 0} (redis : RedisClient S) where
  unfoldable pub publish : List TaskEvent → S → S
  publish [] s = s
  publish (e ∷ es) s = publish es (redis.publish e.conversation_id e s).1
