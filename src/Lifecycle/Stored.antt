-- ===== src/Lifecycle/Stored.antt =====
-- The invariant, and the ways of tasks, through the storing of a result.
use mathlib.Core.Path.{◌∙◌}
use baa_system.Base.{
  ℕ, String, ◌≡◌, refl, ap, true, Option, none, some, List, [], ◌∷◌, ◌++◌, arith, inl, inr, map,
  by_option, by_test, is_some, scalar, Bool, Option-cases, ◌==◌, not,
}
use baa_system.Models.{AnalysisTask, Conversation, Database, Message}
use baa_system.Redis.{RedisClient}
use baa_system.Repository.{
  get_by_id, get_by_id_key, has_complete_result, scalar-append, lock_conversation_owned,
}
use baa_system.Tasks.World.{World}
use baa_system.Tasks.Results.{
  NewFile, ResultIds, has_result, result_message, with_result, with_message, result_specs,
  commit_result, store_new, persist_result, is_complete,
}
use baa_system.Lifecycle.Invariant.{IsValid}
use baa_system.Lifecycle.Requests.{IsValid-other_tables, replaced}
use baa_system.Lifecycle.Advance.{Advances, Advances-same, Advances-after, flush-Advances}
use baa_system.Lifecycle.Emissions.{own_replay}

-- More rows leave what was found among them.
found_more :
    (id : ℕ) (xs ys : List ℕ)
    → is_some (scalar (λ x. x == id) xs) ≡ true
    → is_some (scalar (λ x. x == id) (xs ++ ys)) ≡ true
found_more id xs ys h = elim (Option-cases (scalar (λ x. x == id) xs)) [
  | inl e ↦ absurd (ground arith)
  | inr (x, e) ↦ rw (scalar-append (λ x. x == id) xs ys, e) refl
]

has_complete_result-with_result :
    (db : Database) (task : AnalysisTask) (files : List NewFile) (id : ℕ)
    → has_complete_result db id ≡ true
    → has_complete_result (with_result task files db) id ≡ true
unfolding has_complete_result
has_complete_result-with_result db task files id h = ground (
  arith,
  found_more id db.results (task.id ∷ []),
  found_more id db.report_files (map (λ (f : NewFile). task.id) files),
)

with_result-IsValid :
    (db : Database) (task : AnalysisTask) (files : List NewFile)
    → IsValid db
    → IsValid (with_result task files db)
unfolding get_by_id
with_result-IsValid db task files v = record {
  keyed = v.keyed;
  numbered = v.numbered;
  row = λ id t h.
      let r = v.row id t h in
      record {
        finished = r.finished;
        classified = r.classified;
        complete = λ e. has_complete_result-with_result db task files t.id (r.complete e);
      };
  logged = v.logged;
  orphan = v.orphan;
}

-- The same rows, under the same keys.
same_rows :
    (db : Database) (now : ℕ) (conversation : Conversation) (message : Message)
    (task : AnalysisTask) (files : List NewFile) (id : ℕ)
    → get_by_id (with_message now conversation message (with_result task files db)) id
      ≡ get_by_id db id
unfolding get_by_id
same_rows db now conversation message task files id = refl

module _ {S : Type 0} (redis : RedisClient S) (now : ℕ) (ids : ResultIds) (files : List NewFile)
    (w : World S) where
  module _ (summary : String) (id : ℕ) (task : AnalysisTask)
      (h : get_by_id w.db id ≡ some task) where
    stored : get_by_id w.db task.id ≡ some task
    stored = ap (get_by_id w.db) (get_by_id_key w.db id task h) ∙ h

    commit_result-IsValid :
        (conversation : Conversation)
        → IsValid w.db
        → IsValid (commit_result redis now ids files summary task conversation w).db
    unfolding commit_result result_specs
    commit_result-IsValid conversation v =
        replaced _ now id task
          (IsValid-other_tables (with_result task files w.db) _ _ _
            (with_result-IsValid w.db task files v))
          (same_rows w.db now conversation (result_message w.db ids task summary) task files id ∙ h)
          task _ refl
          ((IsValid-other_tables (with_result task files w.db) _ _ _
              (with_result-IsValid w.db task files v)).row
            id task
            (same_rows w.db now conversation (result_message w.db ids task summary) task files id
              ∙ h))
          (own_replay w.db id task v h)

    commit_result-Advances :
        (conversation : Conversation)
        → Advances w.db (commit_result redis now ids files summary task conversation w).db
    unfolding commit_result
    commit_result-Advances conversation =
        let message = result_message w.db ids task summary in
        Advances-after w.db (with_message now conversation message (with_result task files w.db)) _
          (same_rows w.db now conversation message task files) refl
          (flush-Advances _ now task task (result_specs ids task message files)
            (same_rows w.db now conversation message task files task.id ∙ stored) (inl refl))

  -- Every world that the storing of a result may lead to.
  persist_result-branches :
      (P : World S → Type 0)
      → P w
      → ((summary : String) (task : AnalysisTask) (id : ℕ)
          → get_by_id w.db id ≡ some task
          → (conversation : Conversation)
          → P (commit_result redis now ids files summary task conversation w))
      → (read : Option String) (id : ℕ) → P (persist_result redis now ids read files id w).1
  unfolding persist_result store_new
  persist_result-branches P same new none id = same
  persist_result-branches P same new (some summary) id =
      by_test (λ (r : Bool × World S). P r.1) (not (is_complete files)) _ _ (λ _. same)
        λ _.
          by_option (λ (r : Bool × World S). P r.1) (get_by_id w.db id) _ _ (λ _. same)
            λ task h.
              by_test (λ (r : Bool × World S). P r.1) (has_result w.db task.id) _ _ (λ _. same)
                λ _.
                  by_option (λ (r : Bool × World S). P r.1)
                    (lock_conversation_owned w.db task.conversation_id task.user_id) _ _ (λ _. same)
                    λ conversation _. new summary task id h conversation

  pub persist_result-IsValid :
      (read : Option String) (id : ℕ)
      → IsValid w.db
      → IsValid (persist_result redis now ids read files id w).1.db
  persist_result-IsValid read id v =
      persist_result-branches (λ u. IsValid u.db) v
        (λ summary task id h conversation. commit_result-IsValid summary id task h conversation v)
        read id

  pub persist_result-Advances :
      (read : Option String) (id : ℕ)
      → Advances w.db (persist_result redis now ids read files id w).1.db
  persist_result-Advances read id =
      persist_result-branches (λ u. Advances w.db u.db) (Advances-same w.db w.db (λ _. refl) refl)
        (λ summary task id h conversation. commit_result-Advances summary id task h conversation)
        read id
