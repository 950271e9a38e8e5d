-- ===== src/Scenarios/Conversations.antt =====
-- The theorems on conversations, applied to a conversation with three messages.
use baa_system.Base.{
  ℕ, ◌+◌, ◌-◌, List, Option, drop, ◌≡◌, ◌*◌, ◌≤◌, refl, none, some, [], ◌∷◌, arith, length, select,
  map,
}
use baa_system.Models.{Database, Message, user, text}
use baa_system.Conversations.Queries.{messages_of}
use baa_system.Conversations.Service.{delete_many}
use baa_system.Conversations.Deletion.{Deletes, delete_many_lem}
use baa_system.Conversations.Pages.{NumberedFrom}
use baa_system.Conversations.History.{read_history, read_history_lem}
use baa_system.Conversations.RoundTrip.{decode_cursor-encode_cursor}
use baa_system.Conversations.Cursors.{encode_cursor, decode_cursor}
use baa_system.Exceptions.{ok}
use baa_system.Scenarios.World.{empty_db}

abbrev message : ℕ → Message
message seq_no = record {
  id = seq_no;
  conversation_id = 1;
  task_id = none;
  client_msg_id = some seq_no;
  seq_no = seq_no;
  role = user;
  message_type = text;
  content = "你好";
  clarification_for_task = none;
}

abbrev written_db : Database
written_db = record empty_db { messages = map message (1 ∷ 2 ∷ 3 ∷ []) }

delete_many_lem_example :
    Deletes 7 (1 ∷ 1 ∷ []) written_db (delete_many 50 7 (1 ∷ 1 ∷ []) written_db)
delete_many_lem_example = delete_many_lem 50 7 (1 ∷ 1 ∷ []) written_db

three_messages : NumberedFrom 1 (messages_of 1 written_db)
unfolding messages_of select
three_messages = (refl, (refl, (refl, tt)))

enough_pages : length (messages_of 1 written_db) ≤ 2 * 2
unfolding messages_of select
enough_pages = omega arith

read_history_lem_example : read_history written_db 1 2 2 none ≡ messages_of 1 written_db
read_history_lem_example =
    read_history_lem written_db 1 2 (omega arith) three_messages 2 enough_pages

-- The payload {"before_seq":n} as JSON, for an n of one figure.
abbrev dumps : ℕ → List ℕ
dumps n =
    123
    ∷ 34
    ∷ 98
    ∷ 101
    ∷ 102
    ∷ 111
    ∷ 114
    ∷ 101
    ∷ 95
    ∷ 115
    ∷ 101
    ∷ 113
    ∷ 34
    ∷ 58
    ∷ (48 + n)
    ∷ 125
    ∷ []

abbrev figure : List ℕ → Option ℕ
figure [] = none
figure (d ∷ rest) = some (d - 48)

abbrev loads : List ℕ → Option ℕ
loads bytes = figure (drop 14 bytes)

decode_cursor-encode_cursor_example : decode_cursor loads (encode_cursor dumps 7) ≡ ok 7
decode_cursor-encode_cursor_example =
    decode_cursor-encode_cursor dumps loads 7
      (
        omega arith,
        (
          omega arith,
          (
            omega arith,
            (
              omega arith,
              (
                omega arith,
                (
                  omega arith,
                  (
                    omega arith,
                    (
                      omega arith,
                      (
                        omega arith,
                        (
                          omega arith,
                          (
                            omega arith,
                            (
                              omega arith,
                              (omega arith, (omega arith, (omega arith, (omega arith, tt)))),
                            ),
                          ),
                        ),
                      ),
                    ),
                  ),
                ),
              ),
            ),
          ),
        ),
      )
      refl
