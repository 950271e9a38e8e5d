-- ===== src/Queue/Order.antt =====
-- The order of the queue, and how often a task stands in it.
use mathlib.Core.List.{reverse-append}
use baa_system.Base.{
  ℕ, ◌+◌, ◌-◌, ◌≡◌, refl, Option, none, some, List, [], ◌∷◌, ◌++◌, reverse, arith, length, ltb,
  remove_all, remove_first, ◌==◌, if◌then◌else◌, Option-cases, Bool-cases, inl, inr,
}
use baa_system.Redis.{View, enqueued, pop_right}
use baa_system.Queue.Refinement.{enqueue_view, reserve_view, release_view}

-- How often a task stands in a list.
abbrev pub occurrences : ℕ → List ℕ → ℕ
occurrences a [] = 0
occurrences a (x ∷ xs) = (if a == x then 1 else 0) + occurrences a xs

pub occurrences-append :
    (a : ℕ) (xs ys : List ℕ) → occurrences a (xs ++ ys) ≡ occurrences a xs + occurrences a ys
occurrences-append a [] ys = omega arith
occurrences-append a (x ∷ xs) ys = omega (arith, occurrences-append a xs ys)

pub occurrences-remove_all :
    (a b : ℕ) (xs : List ℕ)
    → occurrences a (remove_all b xs) ≡ (if b == a then 0 else occurrences a xs)
unfolding remove_all
occurrences-remove_all a b [] = ground arith
occurrences-remove_all a b (x ∷ xs) = ground (arith, occurrences-remove_all a b xs)

pub occurrences-remove_first :
    (a b : ℕ) (xs : List ℕ)
    → occurrences a (remove_first b xs)
      ≡ (if b == a then occurrences a xs - 1 else occurrences a xs)
unfolding remove_first
occurrences-remove_first a b [] = ground arith
occurrences-remove_first a b (x ∷ xs) = ground (arith, occurrences-remove_first a b xs)

pop_right-append : (xs : List ℕ) (x : ℕ) → pop_right (xs ++ x ∷ []) ≡ some (xs, x)
unfolding pop_right
pop_right-append [] x = refl
pop_right-append (y ∷ xs) x = rw (pop_right-append xs x)

pop_right-none : (xs : List ℕ) → pop_right xs ≡ none → xs ≡ []
unfolding pop_right
pop_right-none [] h = refl
pop_right-none (y ∷ xs) h = ground arith

pub pop_right_lem : (xs rest : List ℕ) (x : ℕ) → pop_right xs ≡ some (rest, x) → xs ≡ rest ++ x ∷ []
unfolding pop_right
pop_right_lem [] rest x h = cc
pop_right_lem (y ∷ xs) rest x h = elim (Option-cases (pop_right xs)) [
  | inl e ↦ ground (arith, pop_right-none xs)
  | inr ((r, l), e) ↦ ground (arith, pop_right_lem xs r l e)
]

-- The tasks that wait, the oldest first.
abbrev pub waiting : View → List ℕ
waiting v = reverse v.ready_list

-- An ideal queue: the first of the waiting, and the others.
abbrev pub dequeue : List ℕ → Option ℕ × List ℕ
dequeue [] = (none, [])
dequeue (x ∷ xs) = (some x, xs)

waiting-enqueue :
    (id : ℕ) (v : View)
    → waiting (enqueue_view id v).1
      ≡ (if v.marked (enqueued id) then waiting v else waiting v ++ id ∷ [])
unfolding enqueue_view
waiting-enqueue id v = elim (Bool-cases (v.marked (enqueued id))) [
  | inl e ↦ rw (e, enqueue_view)
  | inr e ↦ rw (e, enqueue_view) (reverse-append (id ∷ []) v.ready_list)
]

waiting-reserve :
    (v : View) → ((reserve_view v).0, waiting (reserve_view v).1) ≡ dequeue (waiting v)
unfolding reserve_view
waiting-reserve v = elim (Option-cases (pop_right v.ready_list)) [
  | inl e ↦ rw (e, reserve_view) (rw (pop_right-none v.ready_list e))
  | inr ((rest, last), e) ↦
      rw (e, reserve_view)
        (rw (pop_right_lem v.ready_list rest last e) (rw (reverse-append rest (last ∷ []))))
]

-- A list has lost an element if the task was in it.
pub removed :
    (a : ℕ) (xs : List ℕ)
    → length xs - length (remove_first a xs) ≡ (if ltb 0 (occurrences a xs) then 1 else 0)
unfolding remove_first
removed a [] = omega arith
removed a (x ∷ xs) = ground (arith, removed a xs)

waiting-release :
    (id : ℕ) (v : View)
    → waiting (release_view id v).1
      ≡ (if ltb 0 (occurrences id v.processing_list) then id ∷ waiting v else waiting v)
unfolding release_view
waiting-release id v = elim (Bool-cases (ltb 0 (occurrences id v.processing_list))) [
  | inl e ↦
      rw (removed id v.processing_list, e, release_view) (reverse-append v.ready_list (id ∷ []))
  | inr e ↦ rw (removed id v.processing_list, e, release_view)
]

-- First in, first out. `enqueue` of an unmarked task puts it behind the waiting ones, and of a
-- marked one changes nothing in their order; `reserve` takes the one that has waited longest;
-- `release` of a task on the processing list makes it the first again.
pub fifo :
    (id : ℕ) (v : View)
    → (waiting (enqueue_view id v).1
        ≡ (if v.marked (enqueued id) then waiting v else waiting v ++ id ∷ []))
      × (((reserve_view v).0, waiting (reserve_view v).1) ≡ dequeue (waiting v))
      × (waiting (release_view id v).1
          ≡ (if ltb 0 (occurrences id v.processing_list) then id ∷ waiting v else waiting v))
fifo id v = (waiting-enqueue id v, waiting-reserve v, waiting-release id v)
