-- ===== src/Scenarios/Queue.antt =====
-- The theorems on the queue, applied to a queue with two tasks.
use baa_system.Base.{
  ◌≢◌, some, refl, true, false, ◌≡◌, ltb, none, [], ◌∷◌, ◌++◌, arith, if◌then◌else◌,
}
use baa_system.Redis.{RedisClient, lpush_view, View, enqueued, Follows, seen}
use baa_system.Queue.{enqueue, acknowledge, release}
use baa_system.Queue.Refinement.{
  enqueue_view, reserve_view, acknowledge_view, release_view, enqueue_refines, acknowledge_refines,
  release_refines,
}
use baa_system.Queue.Order.{waiting, dequeue, occurrences, fifo}
use baa_system.Queue.Raising.{IsAtomic, is_cleaned, enqueue-is_cleaned}
use baa_system.Queue.Failures.{EnqueueFailure, enqueue_failed, at_push}
use baa_system.Queue.AtMostOnce.{
  AtMostOnce, start, further, enqueues, reserves, releases, enqueue_raises, QueueReach-AtMostOnce,
}
use baa_system.Scenarios.World.{memory, memory-IsServer, settings, no_keys}

-- Task 2 was enqueued after task 1.
abbrev two_tasks : View
two_tasks = (enqueue_view 2 (enqueue_view 1 no_keys).1).1

no_keys-AtMostOnce : AtMostOnce no_keys
no_keys-AtMostOnce id = omega arith

fifo_example :
    (waiting (enqueue_view 3 two_tasks).1
      ≡ (if two_tasks.marked (enqueued 3) then waiting two_tasks else waiting two_tasks ++ 3 ∷ []))
    × (((reserve_view two_tasks).0, waiting (reserve_view two_tasks).1)
        ≡ dequeue (waiting two_tasks))
    × (waiting (release_view 3 two_tasks).1 ≡ (
        if ltb 0 (occurrences 3 two_tasks.processing_list)
        then 3 ∷ waiting two_tasks
        else waiting two_tasks))
fifo_example = fifo 3 two_tasks

-- A third push fails.
abbrev third : View
third = enqueue_failed 3 (at_push false true) two_tasks

QueueReach-AtMostOnce_example : AtMostOnce (release_view 1 (reserve_view third).1).1
QueueReach-AtMostOnce_example =
    QueueReach-AtMostOnce no_keys (release_view 1 (reserve_view third).1).1 no_keys-AtMostOnce (
      further _ _
        (further _ _
          (further _ _ (further _ _ (further _ _ start (enqueues 1)) (enqueues 2))
            (enqueue_raises 3 (at_push false true) refl))
          reserves)
        (releases 1))

enqueue_refines_example :
    Follows two_tasks (enqueue_view 3) (seen (λ v. v) (enqueue memory settings 3 two_tasks))
enqueue_refines_example = enqueue_refines memory settings (λ v. v) memory-IsServer 3 two_tasks

acknowledge_refines_example :
    Follows two_tasks (acknowledge_view 1) (seen (λ v. v) (acknowledge memory settings 1 two_tasks))
acknowledge_refines_example =
    acknowledge_refines memory settings (λ v. v) memory-IsServer 1 two_tasks

release_refines_example :
    Follows two_tasks (release_view 1) (seen (λ v. v) (release memory settings 1 two_tasks))
release_refines_example = release_refines memory settings (λ v. v) memory-IsServer 1 two_tasks

-- A server that loses the replies of pushes.
abbrev losing : RedisClient View
losing = record memory { lpush = λ list a v. (none, (lpush_view list a v).1) }

losing-IsAtomic : IsAtomic (λ v. v) losing
losing-IsAtomic = record {
  set_nx_ran = λ key ttl s. refl;
  delete_ran = λ key s. refl;
  lrem_ran = λ list count a s. refl;
  lpush_ran = λ list a s. (true, refl);
}

some-ne-none : {A : Type 0} {a : A} → some a ≢ none
some-ne-none e = cc

push_lost : (enqueue losing settings 3 no_keys).0 ≡ none
unfolding enqueue
push_lost = refl

enqueue-is_cleaned_example :
    (failure : EnqueueFailure) × ((enqueue losing settings 3 no_keys).1
      ≡ enqueue_failed 3 failure no_keys)
    × (is_cleaned failure ≡ true)
enqueue-is_cleaned_example =
    enqueue-is_cleaned losing settings (λ v. v) losing-IsAtomic 3 no_keys (λ s'. some-ne-none)
      push_lost
