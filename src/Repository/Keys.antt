-- ===== src/Repository/Keys.antt =====
-- The primary key of `analysis_tasks`: no two rows have the same one.
use mathlib.Core.Path.{subst}
use baa_system.Base.{
  ℕ, ◌≡◌, refl, Option, none, some, List, [], ◌∷◌, ◌++◌, ◌&&◌, arith, scalar, Bool-cases, inl, inr,
  ◌==◌, ==→eq,
}
use baa_system.Models.{AnalysisTask, Database}
use baa_system.Repository.Queries.{get_by_id, get_owned, save_task}
use baa_system.Repository.Rows.{save_task_lem, get_owned_found, scalar-append}

abbrev pub by_id : ℕ → List AnalysisTask → Option AnalysisTask
by_id id ts = scalar (λ t. t.id == id) ts

abbrev pub UniqueKeys : List AnalysisTask → Type 0
UniqueKeys [] = Unit
UniqueKeys (t ∷ ts) = (by_id t.id ts ≡ none) × UniqueKeys ts

pub save_task-UniqueKeys :
    (t : AnalysisTask) (ts : List AnalysisTask) → UniqueKeys ts → UniqueKeys (save_task t ts)
unfolding save_task
save_task-UniqueKeys t [] k = tt
save_task-UniqueKeys t (u ∷ ts) k = elim (Bool-cases (u.id == t.id)) [
  | inl e ↦ rw e (subst (λ i. by_id i ts ≡ none) (==→eq u.id t.id e) k.0, k.1)
  | inr e ↦ rw e (ground (arith, save_task_lem u.id t ts), save_task-UniqueKeys t ts k.1)
]

pub insert-UniqueKeys :
    (t : AnalysisTask) (ts : List AnalysisTask)
    → by_id t.id ts ≡ none
    → UniqueKeys ts
    → UniqueKeys (ts ++ (t ∷ []))
unfolding scalar
insert-UniqueKeys t [] fresh k = (refl, tt)
insert-UniqueKeys t (u ∷ ts) fresh k = (
  ground (arith, scalar-append (λ t. t.id == u.id) ts (t ∷ [])),
  insert-UniqueKeys t ts (ground arith) k.1,
)

owned_row :
    (id user_id : ℕ) (ts : List AnalysisTask) (t : AnalysisTask)
    → UniqueKeys ts
    → scalar (λ t. t.id == id && t.user_id == user_id) ts ≡ some t
    → by_id id ts ≡ some t
unfolding scalar
owned_row id user_id [] t k h = cc
owned_row id user_id (u ∷ ts) t k h =
    ground (arith, get_owned_found id user_id ts t, owned_row id user_id ts t k.1)

-- With unique keys, the owner's row is the row with that key.
pub get_owned-get_by_id :
    (db : Database) (id user_id : ℕ) (t : AnalysisTask)
    → UniqueKeys db.tasks
    → get_owned db id user_id ≡ some t
    → get_by_id db id ≡ some t
unfolding get_owned get_by_id
get_owned-get_by_id db id user_id t k h = owned_row id user_id db.tasks t k h
