-- ===== src/Queue/Failures.antt =====
-- What operations that raise leave behind: `except Exception: delete(marker); raise` in `enqueue`,
-- and the commands that the others had sent before.
use baa_system.Base.{ℕ, Bool, true, false, ltb, if◌then◌else◌}
use baa_system.Redis.{
  View, enqueued, ready, processing, set_nx_view, delete_view, lrem_view, lpush_view, rpush_view,
}
use baa_system.Queue.Refinement.{reserve_view}

-- A command that has been executed, or not, when the client raises.
abbrev pub done : {A : Type 0} → Bool → (View → A × View) → View → View
done true f v = (f v).1
done false f v = v

-- The command at which `enqueue` raises, whether the server has executed it, and whether it has
-- executed the deletion of the marker that follows a failed removal or push.
pub data EnqueueFailure : Type 0 where
  at_claim : Bool → EnqueueFailure
  at_removal at_push : Bool → Bool → EnqueueFailure

-- And so for the two commands of `acknowledge` and of `release`.
pub data Failure : Type 0 where
  at_first at_second : Bool → Failure

abbrev pub claim : ℕ → View → View
claim task_id v = (set_nx_view (enqueued task_id) v).1

abbrev pub take_off : ℕ → ℕ → View → View
take_off count task_id v = (lrem_view processing count task_id v).1

-- A marked task is refused before there is more to raise.
unfoldable pub enqueue_failed : ℕ → EnqueueFailure → View → View
enqueue_failed task_id (at_claim executed) v = done executed (set_nx_view (enqueued task_id)) v
enqueue_failed task_id (at_removal executed deleted) v =
    if v.marked (enqueued task_id)
    then v
    else done deleted (delete_view (enqueued task_id))
        (done executed (lrem_view processing 0 task_id) (claim task_id v))
enqueue_failed task_id (at_push executed deleted) v =
    if v.marked (enqueued task_id)
    then v
    else done deleted (delete_view (enqueued task_id))
        (done executed (lpush_view ready task_id) (take_off 0 task_id (claim task_id v)))

unfoldable pub reserve_failed : Bool → View → View
unfolding reserve_view
reserve_failed executed v = done executed reserve_view v

unfoldable pub acknowledge_failed : ℕ → Failure → View → View
acknowledge_failed task_id (at_first executed) v = done executed (lrem_view processing 1 task_id) v
acknowledge_failed task_id (at_second executed) v =
    done executed (delete_view (enqueued task_id)) (take_off 1 task_id v)

unfoldable pub release_failed : ℕ → Failure → View → View
release_failed task_id (at_first executed) v = done executed (lrem_view processing 1 task_id) v
release_failed task_id (at_second executed) v =
    if ltb 0 (lrem_view processing 1 task_id v).0
    then done executed (rpush_view ready task_id) (take_off 1 task_id v)
    else v

-- The push was executed, its reply was lost, and the marker was deleted.
abbrev pub is_lost_push : EnqueueFailure → Bool
is_lost_push (at_push true true) = true
is_lost_push _ = false
