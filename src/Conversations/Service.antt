-- ===== src/Conversations/Service.antt =====
-- `ConversationService` (backend/app/services/conversation_service.py). A cursor is its payload:
-- the encoding of backend/app/core/pagination.py is not part of the model.
use baa_system.Base.{
  ℕ, String, Bool, true, false, Option, none, some, List, [], ◌∷◌, ◌++◌, map, reverse, take, length,
  unique, contains, ltb, ◌+◌, ◌&&◌, ◌==◌, not, if◌then◌else◌,
}
use baa_system.Models.{Conversation, ConversationStatus, Message, Database, is_deleted}
use baa_system.Exceptions.{Result, ok, err, Action, conversation_missing}
use baa_system.Tasks.World.{text_of}
use baa_system.Conversations.Queries.{get_owned, list_messages, list_owned}

-- `(title or "").strip() or "新会话"`: `strip` is Python's.
normalized_title : (String → String) → Option String → String
normalized_title strip none = if text_of (strip "") then strip "" else "新会话"
normalized_title strip (some title) = if text_of (strip title) then strip title else "新会话"

-- `id` and `now` are the key and the time of the new row.
unfoldable pub create :
    (String → String) → ℕ → ℕ → ℕ → Option String → Database → Conversation × Database
unfolding normalized_title
create strip now id user_id title db =
    let conversation : Conversation = record {
      id = id;
      user_id = user_id;
      title = normalized_title strip title;
      status = ConversationStatus.draft;
      last_message_at = none;
      updated_at = now;
    } in
    (conversation, record db { conversations = db.conversations ++ (conversation ∷ []) })

-- The first loop of `delete_many`: every conversation is there, or the first missing one raises.
unfoldable pub all_owned : Database → ℕ → List ℕ → Bool
all_owned db user_id [] = true
all_owned db user_id (id ∷ ids) = elim (get_owned db id user_id) [
  | none ↦ false
  | some conversation ↦ all_owned db user_id ids
]

-- The second loop, on the rows that the first has loaded.
unfoldable pub mark_deleted : ℕ → ℕ → List ℕ → Conversation → Conversation
mark_deleted now user_id ids c =
    if contains c.id ids && c.user_id == user_id && not (is_deleted c.status)
    then record c { status = ConversationStatus.deleted; updated_at = now }
    else c

unfoldable pub delete_many : ℕ → ℕ → List ℕ → Action Database ℕ
delete_many now user_id conversation_ids db =
    let unique_ids = unique conversation_ids in
    if all_owned db user_id unique_ids
    then (
      ok (length unique_ids),
      record db { conversations = map (mark_deleted now user_id unique_ids) db.conversations },
    )
    else (err conversation_missing, db)

pub record ConversationPage : Type 0 where
  pub items : List Conversation
  pub next_cursor : Option (ℕ × ℕ)

-- The cursor of `page[-1]`, if there is a page.
last_conversation : List Conversation → Option (ℕ × ℕ)
last_conversation [] = none
last_conversation (c ∷ []) = some (c.updated_at, c.id)
last_conversation (c ∷ cs) = last_conversation cs

unfoldable pub list_conversations :
    Database → ℕ → Option ConversationStatus → Option (ℕ × ℕ) → ℕ → ConversationPage
unfolding last_conversation
list_conversations db user_id status cursor limit =
    let rows = list_owned db user_id status cursor (limit + 1) in
    let page = take limit rows in
    record {
      items = page;
      next_cursor = if ltb limit (length rows) then last_conversation page else none;
    }

pub record MessagePage : Type 0 where
  pub items : List Message
  pub next_cursor : Option ℕ

-- `page_desc[-1].seq_no`, if there is a page.
unfoldable pub last_message : List Message → Option ℕ
last_message [] = none
last_message (m ∷ []) = some m.seq_no
last_message (m ∷ ms) = last_message ms

-- Of the rows in descending order, the page in ascending order.
unfoldable pub page_of : ℕ → List Message → MessagePage
page_of limit rows = record {
  items = reverse (take limit rows);
  next_cursor = if ltb limit (length rows) then last_message (take limit rows) else none;
}

unfoldable pub list_messages_owned : Database → ℕ → ℕ → Option ℕ → ℕ → Result MessagePage
list_messages_owned db user_id conversation_id cursor limit =
    elim (get_owned db conversation_id user_id) [
      | none ↦ err conversation_missing
      | some conversation ↦ ok (page_of limit (list_messages db conversation_id cursor (limit + 1)))
    ]
