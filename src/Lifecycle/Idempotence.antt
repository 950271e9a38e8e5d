-- ===== src/Lifecycle/Idempotence.antt =====
-- `create_from_message` with the same client message id, twice.
use mathlib.Core.Path.{◌∙◌}
use baa_system.Base.{
  ℕ, ◌≡◌, refl, ap, true, false, Bool, not, ◌&&◌, Option, none, some, List, [], ◌∷◌, arith, length,
  unique, scalar, scalar_holds, ◌==◌, ==_self, Option-cases, inl, inr, is_some,
}
use baa_system.Models.{AnalysisTask, Conversation, Database, Message, TaskEvent, is_deleted}
use baa_system.Events.{append_many, publish, build_events}
use baa_system.Exceptions.{ok}
use baa_system.Redis.{RedisClient}
use baa_system.Settings.{Settings}
use baa_system.Repository.{
  get_by_id, get_idempotent, get_active_for_conversation, lock_conversation_owned,
  owned_attachments, list_events, save_conversation, scalar-append,
}
use baa_system.Tasks.World.{World, enqueue_safely}
use baa_system.Tasks.Create.{
  UserMessageEvent, NewIds, get_message, new_message, new_task, insert_rows, creation_specs,
  create_new, idempotent, create_from_message,
}
use baa_system.Log.Numbering.{events_of-append_many}
use baa_system.Log.Paging.{list_events_lem}
use baa_system.Lifecycle.Invariant.{IsValid}
use baa_system.Lifecycle.Creation.{insert-IsValid, no_log}
use baa_system.Lifecycle.Branches.{insert}

-- A saved conversation is still found, if it has what is asked for.
save_conversation_found :
    (p : Conversation → Bool) (c : Conversation) (cs : List Conversation)
    → p c ≡ true
    → ((d : Conversation) → p d ≡ true → d.id ≡ c.id)
    → is_some (scalar p cs) ≡ true
    → is_some (scalar p (save_conversation c cs)) ≡ true
unfolding save_conversation scalar
save_conversation_found p c [] h k e = e
save_conversation_found p c (d ∷ cs) h k e = ground (arith, save_conversation_found p c cs h k, k d)

-- What `create_from_message` asks for before it inserts rows.
pub record IsAccepted (db : Database) (user_id : ℕ) (request : UserMessageEvent)
    (conversation : Conversation) : Type 0 where
  pub locked : lock_conversation_owned db request.conversation_id user_id ≡ some conversation
  pub unseen : get_idempotent db user_id request.conversation_id request.client_msg_id ≡ none
  pub idle : get_active_for_conversation db request.conversation_id ≡ none
  pub attached :
      (length (owned_attachments db (unique request.attachment_ids) user_id request.conversation_id)
        == length (unique request.attachment_ids))
      ≡ true

module _ {S : Type 0} (redis : RedisClient S) (settings : Settings) (now : ℕ) (ids : NewIds)
    (user_id : ℕ) (request : UserMessageEvent) (conversation : Conversation) (w : World S)
    (accepted : IsAccepted w.db user_id request conversation) where
  abbrev task : AnalysisTask
  task = new_task now ids user_id request

  abbrev message : Message
  message = new_message w.db ids request

  abbrev events : List TaskEvent
  events =
      (append_many (insert_rows now ids user_id request conversation w.db) now task
        (creation_specs ids request message.seq_no)).1

  abbrev created : World S
  created = record {
    db = insert now ids user_id request conversation w.db;
    redis = publish redis events (enqueue_safely redis settings task.id w.redis);
  }

  -- An accepted message is answered with the new task, its message and its first events.
  creates_lem :
      create_from_message redis settings now ids none user_id request w
      ≡ (ok (record { task = task; message = message; events = events; created = true }), created)
  unfolding create_from_message
  creates_lem =
      rw (accepted.locked, accepted.unseen, create_from_message)
        (rw (accepted.idle, create_new) (rw (accepted.attached) refl))

  conversation_lock :
      (conversation.id == request.conversation_id
        && conversation.user_id == user_id
        && not (is_deleted conversation.status))
      ≡ true
  unfolding lock_conversation_owned
  conversation_lock = scalar_holds _ w.db.conversations conversation accepted.locked

  conversation_key : conversation.id ≡ request.conversation_id
  conversation_key = ground (arith, conversation_lock)

  still_locked : is_some (lock_conversation_owned created.db request.conversation_id user_id) ≡ true
  unfolding lock_conversation_owned append_many insert_rows
  still_locked =
      save_conversation_found _ _ w.db.conversations
        (ground (arith, conversation_key, conversation_lock))
        (λ d e. ground (arith, conversation_key))
        (unfold lock_conversation_owned in ap is_some accepted.locked)

  idempotent_task :
      get_idempotent created.db user_id request.conversation_id request.client_msg_id ≡ some task
  unfolding get_idempotent append_many insert_rows new_task
  idempotent_task =
      rw (scalar-append _ w.db.tasks (task ∷ []), accepted.unseen) (unfold scalar in ground arith)

  stored_message :
      get_message w.db ids.message_id ≡ none → get_message created.db task.message_id ≡ some message
  unfolding get_message append_many insert_rows new_task new_message
  stored_message fresh =
      rw (scalar-append _ w.db.messages (message ∷ []), fresh) (unfold scalar in ground arith)

  stored_events :
      IsValid w.db
      → get_by_id w.db ids.task_id ≡ none
      → list_events created.db task.id 0 10 ≡ events
  stored_events v fresh =
      list_events_lem created.db task.id 0 10
        (insert-IsValid w.db now ids user_id request conversation message.seq_no v fresh).numbered
      ∙ rw
          (
            events_of-append_many task.id (insert_rows now ids user_id request conversation w.db)
                now task (creation_specs ids request message.seq_no),
            ==_self task.id,
            no_log w.db now ids user_id request conversation message.seq_no v fresh,
          )
          (unfold append_many creation_specs build_events in refl)

  -- A second request with the same client message id, of the same user in the same conversation.
  module _ (v : IsValid w.db) (new_task_key : get_by_id w.db ids.task_id ≡ none)
      (new_message_key : get_message w.db ids.message_id ≡ none) (later : ℕ) (other_ids : NewIds)
      (race : Option Database) (request' : UserMessageEvent)
      (same_conversation : request'.conversation_id ≡ request.conversation_id)
      (same_key : request'.client_msg_id ≡ request.client_msg_id) where
    idempotent_again :
        get_idempotent created.db user_id request'.conversation_id request'.client_msg_id
        ≡ some task
    idempotent_again =
        ap (λ i. get_idempotent created.db user_id i request'.client_msg_id) same_conversation
        ∙ ap (λ i. get_idempotent created.db user_id request.conversation_id i) same_key
        ∙ idempotent_task

    replays_lem :
        (c : Conversation)
        → lock_conversation_owned created.db request'.conversation_id user_id ≡ some c
        → create_from_message redis settings later other_ids race user_id request' created ≡ (
          ok (record { task = task; message = message; events = events; created = false }),
          record created { redis = enqueue_safely redis settings task.id created.redis },
        )
    unfolding create_from_message
    replays_lem c locked =
        rw (locked, idempotent_again, create_from_message)
          (rw (stored_message new_message_key, stored_events v new_task_key, idempotent)
            (unfold new_task in refl))

    found_again :
        (c : Conversation) × (lock_conversation_owned created.db request'.conversation_id user_id
          ≡ some c)
    found_again =
        elim (Option-cases (lock_conversation_owned created.db request'.conversation_id user_id)) [
          | inl e ↦ absurd (
              ground (
                arith,
                still_locked,
                ap (λ i. lock_conversation_owned created.db i user_id) same_conversation,
              ))
          | inr found ↦ found
        ]

    -- An accepted message creates its task with the first events; and when the user sends it again,
    -- with whatever content, attachments and time, the answer is that task, message and events, not
    -- created, and no row is written: only the task is enqueued again. The keys of the new rows are
    -- not in use, and the database is valid, before the first request.
    pub create_from_message_twice :
        (create_from_message redis settings now ids none user_id request w ≡ (
          ok (record { task = task; message = message; events = events; created = true }),
          created,
        ))
        × (create_from_message redis settings later other_ids race user_id request' created ≡ (
          ok (record { task = task; message = message; events = events; created = false }),
          record created { redis = enqueue_safely redis settings task.id created.redis },
        ))
    create_from_message_twice = let (c, locked) = found_again in (creates_lem, replays_lem c locked)
