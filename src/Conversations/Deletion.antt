-- ===== src/Conversations/Deletion.antt =====
-- What `delete_many` deletes.
use mathlib.Core.Path.{◌∙◌}
use baa_system.Base.{
  ℕ, ◌≡◌, refl, sym, ap, true, false, not, ◌&&◌, ◌||◌, none, List, [], ◌∷◌, map, arith, length,
  unique, unique_from, contains, scalar, ◌==◌, ==→eq, ==_self, if◌then◌else◌, inl, inr, by_test,
  Option-cases, is_some,
}
use baa_system.Models.{Conversation, Database}
use baa_system.Exceptions.{Result, ok, err}
use baa_system.Conversations.Queries.{get_owned, is_owned}
use baa_system.Conversations.Service.{all_owned, mark_deleted, delete_many}

contains-unique_from :
    (a : ℕ) (seen xs : List ℕ)
    → (contains a seen || contains a (unique_from seen xs)) ≡ (contains a seen || contains a xs)
unfolding unique_from
contains-unique_from a seen [] = refl
contains-unique_from a seen (x ∷ xs) =
    ground (arith, contains-unique_from a seen xs, contains-unique_from a (x ∷ seen) xs, ==→eq a x)

contains-unique : (a : ℕ) (xs : List ℕ) → contains a (unique xs) ≡ contains a xs
unfolding unique
contains-unique a xs = contains-unique_from a [] xs

-- What a user finds under a key after the rows are marked.
found-mark_deleted :
    (now user_id reader id : ℕ) (ids : List ℕ) (cs : List Conversation)
    → scalar (is_owned id reader) (map (mark_deleted now user_id ids) cs)
      ≡ (if contains id ids && reader == user_id then none else scalar (is_owned id reader) cs)
unfolding scalar mark_deleted
found-mark_deleted now user_id reader id ids [] = ground arith
found-mark_deleted now user_id reader id ids (c ∷ cs) =
    ground (arith, found-mark_deleted now user_id reader id ids cs, ==→eq c.id id)

all_owned_found :
    (db : Database) (user_id id : ℕ) (ids : List ℕ)
    → all_owned db user_id ids ≡ true
    → (not (contains id ids) || is_some (get_owned db id user_id)) ≡ true
unfolding all_owned
all_owned_found db user_id id [] h = refl
all_owned_found db user_id id (x ∷ ids) h =
    ground (arith, all_owned_found db user_id id ids, ==→eq id x)

missing_one :
    (db : Database) (user_id : ℕ) (ids : List ℕ)
    → all_owned db user_id ids ≡ false
    → (id : ℕ) × (contains id ids ≡ true) × (get_owned db id user_id ≡ none)
unfolding all_owned
missing_one db user_id [] h = cc
missing_one db user_id (x ∷ ids) h = elim (Option-cases (get_owned db x user_id)) [
  | inl e ↦ (x, rw (==_self x) refl, e)
  | inr (c, e) ↦
      let (id, inside, gone) = missing_one db user_id ids (ground (arith, e)) in
      (id, rw inside (ground arith), gone)
]

-- What a call of `delete_many` has done, by how it ended.
abbrev pub Deletes : ℕ → List ℕ → Database → Result ℕ × Database → Type 0
Deletes user_id ids db (err e, db') =
    (db' ≡ db) × ((id : ℕ) × (contains id ids ≡ true) × (get_owned db id user_id ≡ none))
Deletes user_id ids db (ok count, db') =
    (count ≡ length (unique ids))
    × ((id : ℕ) → (not (contains id ids) || is_some (get_owned db id user_id)) ≡ true)
    × ((id reader : ℕ)
        → get_owned db' id reader
          ≡ (if contains id ids && reader == user_id then none else get_owned db id reader))

marked_lem :
    (now user_id : ℕ) (ids : List ℕ) (db : Database) (id reader : ℕ)
    → get_owned
        (record db { conversations = map (mark_deleted now user_id (unique ids)) db.conversations })
        id
        reader
      ≡ (if contains id ids && reader == user_id then none else get_owned db id reader)
unfolding get_owned
marked_lem now user_id ids db id reader =
    found-mark_deleted now user_id reader id (unique ids) db.conversations
    ∙ ap
        (λ b. if b && reader == user_id then none else scalar (is_owned id reader) db.conversations)
        (contains-unique id ids)

-- `delete_many` deletes all or nothing. If it raises, one of the conversations is not found for
-- the user, and nothing has changed. Otherwise all of them were found, the count is that of the
-- distinct ones, the user finds none of them any more, and every other conversation, and every
-- other user, is as before.
pub delete_many_lem :
    (now user_id : ℕ) (ids : List ℕ) (db : Database)
    → Deletes user_id ids db (delete_many now user_id ids db)
unfolding delete_many
delete_many_lem now user_id ids db =
    by_test (Deletes user_id ids db) (all_owned db user_id (unique ids)) _ _
      (λ e. (
        refl,
        λ id.
            ap (λ b. not b || is_some (get_owned db id user_id)) (sym (contains-unique id ids))
            ∙ all_owned_found db user_id id (unique ids) e,
        marked_lem now user_id ids db,
      ))
      λ e.
        let (id, inside, gone) = missing_one db user_id (unique ids) e in
        (refl, (id, sym (contains-unique id ids) ∙ inside, gone))
