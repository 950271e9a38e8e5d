-- ===== src/Queue/AtMostOnce.antt =====
-- How often a task stands in the queue.
use baa_system.Base.{
  ℕ, ◌+◌, ◌≤◌, ◌<◌, ◌≡◌, Bool, true, false, some, List, [], ◌∷◌, arith, if◌then◌else◌, Option-cases,
  inl, inr, ==→eq,
}
use baa_system.Redis.{View, enqueued, pop_right}
use baa_system.Queue.Refinement.{enqueue_view, reserve_view, acknowledge_view, release_view}
use baa_system.Queue.Order.{
  occurrences, occurrences-append, occurrences-remove_all, occurrences-remove_first, pop_right_lem,
  removed,
}
use baa_system.Queue.Failures.{
  EnqueueFailure, at_claim, at_removal, at_push, Failure, at_first, at_second, take_off,
  enqueue_failed, reserve_failed, acknowledge_failed, release_failed, is_lost_push,
}

-- A task stands in the two lists together at most once, and only while it is marked.
abbrev pub AtMostOnce : View → Type 0
AtMostOnce v =
    (id : ℕ)
    → occurrences id v.ready_list + occurrences id v.processing_list
      ≤ (if v.marked (enqueued id) then 1 else 0)

-- The steps of the queue while no marker expires: any task may be enqueued; a worker reserves, and
-- acknowledges or releases a task on the processing list; and each of these may raise.
pub data QueueStep (v : View) : View → Type 0 where
  enqueues : (id : ℕ) → QueueStep v (enqueue_view id v).1
  reserves : QueueStep v (reserve_view v).1
  acknowledges :
      (id : ℕ) → 0 < occurrences id v.processing_list → QueueStep v (acknowledge_view id v).1
  releases : (id : ℕ) → QueueStep v (release_view id v).1
  enqueue_raises :
      (id : ℕ) (failure : EnqueueFailure)
      → is_lost_push failure ≡ false
      → QueueStep v (enqueue_failed id failure v)
  reserve_raises : (executed : Bool) → QueueStep v (reserve_failed executed v)
  acknowledge_raises :
      (id : ℕ) (failure : Failure)
      → 0 < occurrences id v.processing_list
      → QueueStep v (acknowledge_failed id failure v)
  release_raises : (id : ℕ) (failure : Failure) → QueueStep v (release_failed id failure v)

enqueue-AtMostOnce : (id : ℕ) (v : View) → AtMostOnce v → AtMostOnce (enqueue_view id v).1
unfolding enqueue_view
enqueue-AtMostOnce id v h other =
    ground (arith, h other, h id, occurrences-remove_all other id v.processing_list, ==→eq other id)

moved_right :
    (a : ℕ) (v : View) (rest : List ℕ) (last : ℕ)
    → pop_right v.ready_list ≡ some (rest, last)
    → occurrences a v.ready_list ≡ occurrences a rest + occurrences a (last ∷ [])
moved_right a v rest last e =
    rw (pop_right_lem v.ready_list rest last e) (occurrences-append a rest (last ∷ []))

reserve-AtMostOnce : (v : View) → AtMostOnce v → AtMostOnce (reserve_view v).1
unfolding reserve_view
reserve-AtMostOnce v h other = elim (Option-cases (pop_right v.ready_list)) [
  | inl e ↦ rw (e, reserve_view) (h other)
  | inr ((rest, last), e) ↦
      rw (e, reserve_view)
        (ground (
          arith,
          h other,
          pop_right_lem v.ready_list rest last e,
          occurrences-append other rest (last ∷ []),
          moved_right other v rest last e,
        ))
]

acknowledge-AtMostOnce :
    (id : ℕ) (v : View)
    → 0 < occurrences id v.processing_list
    → AtMostOnce v
    → AtMostOnce (acknowledge_view id v).1
unfolding acknowledge_view
acknowledge-AtMostOnce id v p h other =
    ground (arith, h other, h id, occurrences-remove_first other id v.processing_list)

release-AtMostOnce : (id : ℕ) (v : View) → AtMostOnce v → AtMostOnce (release_view id v).1
unfolding release_view
release-AtMostOnce id v h other = ground (
  arith,
  h other,
  h id,
  removed id v.processing_list,
  occurrences-remove_first other id v.processing_list,
  occurrences-append other v.ready_list (id ∷ []),
)

enqueue_failed-AtMostOnce :
    (id : ℕ) (failure : EnqueueFailure) (v : View)
    → is_lost_push failure ≡ false
    → AtMostOnce v
    → AtMostOnce (enqueue_failed id failure v)
unfolding enqueue_failed
enqueue_failed-AtMostOnce id (at_claim true) v n h other = ground (arith, h other, h id)
enqueue_failed-AtMostOnce id (at_claim false) v n h other = h other
enqueue_failed-AtMostOnce id (at_removal true true) v n h other =
    ground (arith, h other, h id, occurrences-remove_all other id v.processing_list, ==→eq other id)
enqueue_failed-AtMostOnce id (at_removal true false) v n h other =
    ground (arith, h other, h id, occurrences-remove_all other id v.processing_list, ==→eq other id)
enqueue_failed-AtMostOnce id (at_removal false true) v n h other =
    ground (arith, h other, h id, ==→eq id other)
enqueue_failed-AtMostOnce id (at_removal false false) v n h other = ground (arith, h other, h id)
enqueue_failed-AtMostOnce id (at_push true true) v n h other = absurd (ground arith)
enqueue_failed-AtMostOnce id (at_push true false) v n h other =
    ground (arith, h other, h id, occurrences-remove_all other id v.processing_list, ==→eq other id)
enqueue_failed-AtMostOnce id (at_push false true) v n h other =
    ground (arith, h other, h id, occurrences-remove_all other id v.processing_list, ==→eq other id)
enqueue_failed-AtMostOnce id (at_push false false) v n h other =
    ground (arith, h other, h id, occurrences-remove_all other id v.processing_list, ==→eq other id)

reserve_failed-AtMostOnce :
    (executed : Bool) (v : View) → AtMostOnce v → AtMostOnce (reserve_failed executed v)
unfolding reserve_failed
reserve_failed-AtMostOnce true v h = reserve-AtMostOnce v h
reserve_failed-AtMostOnce false v h = h

taken_off-AtMostOnce : (id : ℕ) (v : View) → AtMostOnce v → AtMostOnce (take_off 1 id v)
taken_off-AtMostOnce id v h other =
    ground (arith, h other, occurrences-remove_first other id v.processing_list)

acknowledge_failed-AtMostOnce :
    (id : ℕ) (failure : Failure) (v : View)
    → 0 < occurrences id v.processing_list
    → AtMostOnce v
    → AtMostOnce (acknowledge_failed id failure v)
unfolding acknowledge_failed
acknowledge_failed-AtMostOnce id (at_first true) v p h = taken_off-AtMostOnce id v h
acknowledge_failed-AtMostOnce id (at_first false) v p h = h
acknowledge_failed-AtMostOnce id (at_second true) v p h =
    unfold acknowledge_view in acknowledge-AtMostOnce id v p h
acknowledge_failed-AtMostOnce id (at_second false) v p h = taken_off-AtMostOnce id v h

release_failed-AtMostOnce :
    (id : ℕ) (failure : Failure) (v : View)
    → AtMostOnce v
    → AtMostOnce (release_failed id failure v)
unfolding release_failed
release_failed-AtMostOnce id (at_first true) v h other = taken_off-AtMostOnce id v h other
release_failed-AtMostOnce id (at_first false) v h other = h other
release_failed-AtMostOnce id (at_second true) v h other = ground (
  arith,
  h other,
  h id,
  removed id v.processing_list,
  occurrences-remove_first other id v.processing_list,
  occurrences-append other v.ready_list (id ∷ []),
)
release_failed-AtMostOnce id (at_second false) v h other =
    ground (arith, h other, occurrences-remove_first other id v.processing_list)

QueueStep-AtMostOnce : (v w : View) → QueueStep v w → AtMostOnce v → AtMostOnce w
QueueStep-AtMostOnce v _ (enqueues id) h = enqueue-AtMostOnce id v h
QueueStep-AtMostOnce v _ reserves h = reserve-AtMostOnce v h
QueueStep-AtMostOnce v _ (acknowledges id p) h = acknowledge-AtMostOnce id v p h
QueueStep-AtMostOnce v _ (releases id) h = release-AtMostOnce id v h
QueueStep-AtMostOnce v _ (enqueue_raises id failure n) h =
    enqueue_failed-AtMostOnce id failure v n h
QueueStep-AtMostOnce v _ (reserve_raises executed) h = reserve_failed-AtMostOnce executed v h
QueueStep-AtMostOnce v _ (acknowledge_raises id failure p) h =
    acknowledge_failed-AtMostOnce id failure v p h
QueueStep-AtMostOnce v _ (release_raises id failure) h = release_failed-AtMostOnce id failure v h

-- The views that the steps reach.
pub data QueueReach (v : View) : View → Type 0 where
  start : QueueReach v v
  further : (w u : View) → QueueReach v w → QueueStep w u → QueueReach v u

-- From a view that holds each task at most once, and only while it is marked, every sequence of
-- operations, those that raise at any of their commands included, reaches only such views: as long
-- as no marker expires, only tasks on the processing list are acknowledged, and no marker is deleted
-- after a push of which only the reply was lost.
pub QueueReach-AtMostOnce : (v w : View) → AtMostOnce v → QueueReach v w → AtMostOnce w
QueueReach-AtMostOnce v _ h start = h
QueueReach-AtMostOnce v _ h (further w u r s) =
    QueueStep-AtMostOnce w u s (QueueReach-AtMostOnce v w h r)
