-- ===== src/Scenarios/World.antt =====
-- A Redis server in memory that never fails, a database with one empty conversation, and the tasks
-- that a user makes in it.
use mathlib.Core.Path.{◌∙◌}
use baa_system.Base.{
  ℕ, ◌≡◌, refl, true, false, sym, scalar, select, order_by, unique, none, some, [], ◌∷◌,
}
use baa_system.Models.{AnalysisTask, Conversation, ConversationStatus, Database, running}
use baa_system.Redis.{
  RedisClient, View, IsServer, set_nx_view, delete_view, lrem_view, lpush_view, rpush_view,
  brpoplpush_view, mark,
}
use baa_system.Settings.{Settings}
use baa_system.Repository.{
  get_by_id, events_of, lock_conversation_owned, get_idempotent, get_active_for_conversation,
  owned_attachments,
}
use baa_system.Events.{append_many}
use baa_system.Tasks.World.{World}
use baa_system.Tasks.Transition.{transition}
use baa_system.Tasks.Create.{UserMessageEvent, NewIds, create_from_message, insert_rows, new_task}
use baa_system.Worker.Process.{claim_args}
use baa_system.Lifecycle.Invariant.{IsValid}
use baa_system.Lifecycle.Creation.{create_from_message-IsValid}

-- Every command is answered.
abbrev pub memory : RedisClient View
memory = record {
  set_nx = λ key ttl v. let (a, u) = set_nx_view key v in (some a, u);
  setex = λ key ttl v. (some tt, mark key true v);
  delete = λ key v. let (a, u) = delete_view key v in (some a, u);
  exists = λ key v. (some (v.marked key), v);
  lrem = λ list count a v. let (b, u) = lrem_view list count a v in (some b, u);
  lpush = λ list a v. let (b, u) = lpush_view list a v in (some b, u);
  rpush = λ list a v. let (b, u) = rpush_view list a v in (some b, u);
  brpoplpush =
      λ source target timeout v. let (b, u) = brpoplpush_view source target v in (some b, u);
  publish = λ conversation_id event v. (some tt, v);
}

pub memory-IsServer : IsServer (λ v. v) memory
memory-IsServer = record {
  set_nx_law = λ key ttl s. refl;
  delete_law = λ key s. refl;
  lrem_law = λ list count a s. refl;
  lpush_law = λ list a s. refl;
  rpush_law = λ list a s. refl;
  brpoplpush_law = λ source target timeout s. (s, λ _. refl, refl);
}

abbrev pub settings : Settings
settings = record {
  task_cancel_ttl_seconds = 86400;
  task_worker_block_timeout_seconds = 5;
  task_queue_marker_ttl_seconds = 3600;
  task_event_replay_limit = 500;
  clarification_timeout_seconds = 1800;
}

-- Conversation 1 of user 7.
abbrev pub opened : Conversation
opened = record {
  id = 1;
  user_id = 7;
  title = "新会话";
  status = ConversationStatus.draft;
  last_message_at = none;
  updated_at = 1;
}

abbrev pub empty_db : Database
empty_db = record {
  conversations = opened ∷ [];
  messages = [];
  attachments = [];
  tasks = [];
  events = [];
  results = [];
  report_files = [];
}

abbrev pub no_keys : View
no_keys = record { ready_list = []; processing_list = []; marked = λ key. false }

abbrev pub empty_world : World View
empty_world = record { db = empty_db; redis = no_keys }

pub no_task : (id : ℕ) → get_by_id empty_db id ≡ none
unfolding get_by_id scalar
no_task id = refl

no_event : (id : ℕ) → events_of id empty_db.events ≡ []
unfolding events_of select
no_event id = refl

pub none-ne-some : {A : Type 0} {a : A} → none ≡ some a → ⊥
none-ne-some h = cc

pub empty_db-IsValid : IsValid empty_db
empty_db-IsValid = record {
  keyed = tt;
  numbered = λ id. unfold events_of select in tt;
  row = λ id t h. absurd (none-ne-some (sym (no_task id) ∙ h));
  logged = λ id t h. absurd (none-ne-some (sym (no_task id) ∙ h));
  orphan = λ id h. no_event id;
}

abbrev pub ids : NewIds
ids = record { message_id = 11; task_id = 12; thread_id = 13 }

abbrev pub request : UserMessageEvent
request = record {
  conversation_id = 1;
  client_msg_id = 21;
  content = "分析华东区销售额下滑原因";
  attachment_ids = [];
}

-- Task 12 is created at time 10 and claimed at time 20.
abbrev pub queued_world : World View
queued_world = (create_from_message memory settings 10 ids none 7 request empty_world).1

abbrev pub running_world : World View
running_world = (transition memory 20 12 running claim_args queued_world).1

pub no_race : (db : Database) → none ≡ some db → IsValid db
no_race db e = absurd (none-ne-some e)

pub queued_world-IsValid : IsValid queued_world.db
queued_world-IsValid =
    create_from_message-IsValid memory settings 10 ids none 7 request empty_world empty_db-IsValid
      (no_task 12) no_race

abbrev pub queued_task : AnalysisTask
queued_task = new_task 10 ids 7 request

pub stored_queued : get_by_id queued_world.db 12 ≡ some queued_task
unfolding get_by_id scalar create_from_message lock_conversation_owned get_idempotent
    get_active_for_conversation select owned_attachments unique append_many insert_rows new_task
    order_by
stored_queued = refl
