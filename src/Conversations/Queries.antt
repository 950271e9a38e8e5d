-- ===== src/Conversations/Queries.antt =====
-- The queries of `ConversationRepository`
-- (backend/app/repositories/conversation_repository.py). A descending order is the ascending one,
-- reversed; the identifiers are compared as the database compares them.
use baa_system.Base.{
  ℕ, true, false, not, ◌&&◌, ◌||◌, Bool, Option, none, some, List, reverse, take, select, scalar,
  order_by, ltb, ◌==◌,
}
use baa_system.Models.{
  Conversation, ConversationStatus, draft, active, archived, deleted, Message, Database, is_deleted,
}

abbrev pub is_owned : ℕ → ℕ → Conversation → Bool
is_owned conversation_id user_id c =
    c.id == conversation_id && c.user_id == user_id && not (is_deleted c.status)

-- `include_deleted` is never given.
unfoldable pub get_owned : Database → ℕ → ℕ → Option Conversation
get_owned db conversation_id user_id = scalar (is_owned conversation_id user_id) db.conversations

-- `if status: ... == status else: ... != "deleted"`
abbrev has_status : Option ConversationStatus → Conversation → Bool
has_status none c = not (is_deleted c.status)
has_status (some draft) c = elim c.status [ draft ↦ true | _ ↦ false ]
has_status (some active) c = elim c.status [ active ↦ true | _ ↦ false ]
has_status (some archived) c = elim c.status [ archived ↦ true | _ ↦ false ]
has_status (some deleted) c = is_deleted c.status

-- The cursor is `updated_at` and `id` of the last row of the page before.
abbrev is_before : Option (ℕ × ℕ) → Conversation → Bool
is_before none c = true
is_before (some (cursor_time, cursor_id)) c =
    ltb c.updated_at cursor_time || (c.updated_at == cursor_time && ltb c.id cursor_id)

unfoldable pub list_owned :
    Database → ℕ → Option ConversationStatus → Option (ℕ × ℕ) → ℕ → List Conversation
list_owned db user_id status cursor limit = take limit (
    reverse (
      order_by (λ c. c.updated_at)
        (order_by (λ c. c.id)
          (select (λ c. c.user_id == user_id && has_status status c && is_before cursor c)
            db.conversations))))

-- The messages of a conversation, in the order of their insertion.
unfoldable pub messages_of : ℕ → Database → List Message
messages_of conversation_id db = select (λ m. m.conversation_id == conversation_id) db.messages

abbrev pub is_older : Option ℕ → Message → Bool
is_older none m = true
is_older (some before_seq) m = ltb m.seq_no before_seq

unfoldable pub list_messages : Database → ℕ → Option ℕ → ℕ → List Message
list_messages db conversation_id before_seq limit = take limit (
    reverse
      (order_by (λ m. m.seq_no) (select (is_older before_seq) (messages_of conversation_id db))))
