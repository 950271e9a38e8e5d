-- ===== src/Repository/Rows.antt =====
-- What the queries for one task return after a write.
use baa_system.Base.{
  ℕ, ◌≡◌, Bool, true, none, some, List, [], ◌∷◌, ◌++◌, ◌&&◌, arith, scalar, scalar_holds,
  select-append, ◌==◌, ==→eq, if◌then◌else◌, is_some,
}
use baa_system.Models.{AnalysisTask, TaskEvent, Database}
use baa_system.Repository.Queries.{get_by_id, save_task, events_of}

-- The row that is found has the key that was asked for.
pub get_by_id_key :
    (db : Database) (id : ℕ) (t : AnalysisTask) → get_by_id db id ≡ some t → t.id ≡ id
unfolding get_by_id
get_by_id_key db id t h = ==→eq t.id id (scalar_holds (λ t. t.id == id) db.tasks t h)

-- The key of a row that exists is found.
pub get_owned_found :
    (id user_id : ℕ) (ts : List AnalysisTask) (t : AnalysisTask)
    → scalar (λ t. t.id == id && t.user_id == user_id) ts ≡ some t
    → is_some (scalar (λ t. t.id == id) ts) ≡ true
unfolding scalar
get_owned_found id user_id [] t h = cc
get_owned_found id user_id (u ∷ ts) t h = ground (arith, get_owned_found id user_id ts t)

pub save_task_lem :
    (id : ℕ) (t : AnalysisTask) (ts : List AnalysisTask)
    → scalar (λ t. t.id == id) (save_task t ts) ≡ (
        if t.id == id
        then elim (scalar (λ t. t.id == id) ts) [ none ↦ none | some _ ↦ some t ]
        else scalar (λ t. t.id == id) ts)
unfolding save_task scalar
save_task_lem id t [] = ground arith
save_task_lem id t (u ∷ ts) = ground (arith, save_task_lem id t ts)

-- After a row is saved, its key gives that row, and every other key what it gave before.
pub get_by_id-save_task :
    (db : Database) (id : ℕ) (t : AnalysisTask)
    → get_by_id (record db { tasks = save_task t db.tasks }) id ≡ (
        if t.id == id
        then elim (get_by_id db id) [ none ↦ none | some _ ↦ some t ]
        else get_by_id db id)
unfolding get_by_id
get_by_id-save_task db id t = save_task_lem id t db.tasks

pub scalar-append {ℓ} :
    {A : Type ℓ} (p : A → Bool) (xs ys : List A)
    → scalar p (xs ++ ys) ≡ elim (scalar p xs) [ none ↦ scalar p ys | some x ↦ some x ]
unfolding scalar
scalar-append p [] ys = ground arith
scalar-append p (x ∷ xs) ys = ground (arith, scalar-append p xs ys)

-- After a row is inserted, its key gives that row unless the key was taken.
pub get_by_id-insert :
    (db : Database) (id : ℕ) (t : AnalysisTask)
    → get_by_id (record db { tasks = db.tasks ++ (t ∷ []) }) id
      ≡ elim (get_by_id db id) [ none ↦ if t.id == id then some t else none | some u ↦ some u ]
unfolding get_by_id
get_by_id-insert db id t = unfold scalar in scalar-append (λ t. t.id == id) db.tasks (t ∷ [])

pub events_of-append :
    (id : ℕ) (es fs : List TaskEvent) → events_of id (es ++ fs) ≡ events_of id es ++ events_of id fs
unfolding events_of
events_of-append id es fs = select-append (λ e. e.task_id == id) es fs
