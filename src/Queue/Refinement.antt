-- ===== src/Queue/Refinement.antt =====
-- Each operation of `TaskQueue` against its meaning on the lists and markers of the server, if no
-- other client acts between the commands of one operation.
use baa_system.Base.{
  ℕ, ◌-◌, ◌≡◌, refl, sym, Bool, true, false, Option, none, some, [], ◌∷◌, ◌++◌, length, ltb,
  remove_all, remove_first, if◌then◌else◌, Bool-cases, inl, inr,
}
use baa_system.Redis.{
  RedisClient, View, Follows, Follows-eq, seen, key_eq, lrem_view, lpush_view, rpush_view,
  set_nx_view, delete_view, on_error, ◌>>◌, IsServer, Follows-bind, Follows-on_error, enqueued,
  ready, processing, pure, when, raise, pop_right,
}
use baa_system.Settings.{Settings}
use baa_system.Queue.{enqueue, acknowledge, release}

-- The steps after the claim, and after the removal.
abbrev requeue_view : ℕ → View → Unit {0} × View
requeue_view task_id v = let (_, u) = lrem_view processing 0 task_id v in lpush_view ready task_id u

abbrev claimed_view : ℕ → Bool → View → Bool × View
claimed_view task_id true v = let (_, u) = requeue_view task_id v in (true, u)
claimed_view task_id false v = (false, v)

abbrev released_view : ℕ → ℕ → View → Unit {0} × View
released_view task_id removed v = if ltb 0 removed then rpush_view ready task_id v else (tt, v)

-- A marked task is refused. Another is marked, taken off the processing list, and put at the left
-- end of the ready list.
unfoldable pub enqueue_view : ℕ → View → Bool × View
enqueue_view task_id v = if v.marked (enqueued task_id) then (false, v) else (
  true,
  record v {
    ready_list = task_id ∷ v.ready_list;
    processing_list = remove_all task_id v.processing_list;
    marked = λ k. if key_eq (enqueued task_id) k then true else v.marked k;
  },
)

-- The right end of the ready list moves to the left end of the processing list.
unfoldable pub reserve_view : View → Option ℕ × View
reserve_view v = elim (pop_right v.ready_list) [
  | none ↦ (none, v)
  | some (rest, last) ↦
      (some last, record v { ready_list = rest; processing_list = last ∷ v.processing_list })
]

unfoldable pub acknowledge_view : ℕ → View → Unit {0} × View
acknowledge_view task_id v = (
  tt,
  record v {
    processing_list = remove_first task_id v.processing_list;
    marked = λ k. if key_eq (enqueued task_id) k then false else v.marked k;
  },
)

-- A task that is on the processing list goes back to the right end of the ready list.
unfoldable pub release_view : ℕ → View → Unit {0} × View
release_view task_id v =
    let left = remove_first task_id v.processing_list in
    if ltb 0 (length v.processing_list - length left)
    then (tt, record v { processing_list = left; ready_list = v.ready_list ++ (task_id ∷ []) })
    else (tt, record v { processing_list = left })

-- The meanings, step by step.
enqueue_steps :
    (task_id : ℕ) (v : View)
    → (let (c, u) = set_nx_view (enqueued task_id) v in claimed_view task_id c u)
      ≡ enqueue_view task_id v
unfolding enqueue_view
enqueue_steps task_id v = elim (Bool-cases (v.marked (enqueued task_id))) [
  | inl e ↦ rw e
  | inr e ↦ rw e
]

release_steps :
    (task_id : ℕ) (v : View)
    → (let (removed, u) = lrem_view processing 1 task_id v in released_view task_id removed u)
      ≡ release_view task_id v
unfolding release_view
release_steps task_id v =
    elim (Bool-cases
      (ltb 0 (length v.processing_list - length (remove_first task_id v.processing_list)))) [
        | inl e ↦ rw e
        | inr e ↦ rw e
      ]

module _ {S : Type 0} (redis : RedisClient S) (settings : Settings) (view : S → View)
    (server : IsServer view redis) where
  requeued :
      (task_id : ℕ) (s : S)
      → Follows
          (view s)
          (requeue_view task_id)
          (seen view ((redis.lrem processing 0 task_id >> redis.lpush ready task_id) s))
  requeued task_id s =
      Follows-bind view (redis.lrem processing 0 task_id) (λ _. redis.lpush ready task_id)
        (lrem_view processing 0 task_id) (λ _. lpush_view ready task_id) s
        (server.lrem_law processing 0 task_id s) λ _ s'. server.lpush_law ready task_id s'

  when_claimed :
      (task_id : ℕ) (claimed : Bool) (s : S)
      → Follows (view s) (claimed_view task_id claimed) (
          seen view (
            when claimed false
              (on_error
                  (redis.lrem processing 0 task_id >> redis.lpush ready task_id)
                  (redis.delete (enqueued task_id) >> raise)
                >> pure true)
              s))
  when_claimed task_id false s = refl
  when_claimed task_id true s =
      Follows-bind view
        (on_error (redis.lrem processing 0 task_id >> redis.lpush ready task_id)
          (redis.delete (enqueued task_id) >> raise))
        (λ _. pure true) (requeue_view task_id) (λ _ v. (true, v)) s
        (Follows-on_error view (redis.lrem processing 0 task_id >> redis.lpush ready task_id)
          (redis.delete (enqueued task_id)) (requeue_view task_id) s (requeued task_id s))
        λ _ _. refl

  -- If `enqueue` answers, it did what `enqueue_view` says.
  pub enqueue_refines :
      (task_id : ℕ) (s : S)
      → Follows (view s) (enqueue_view task_id) (seen view (enqueue redis settings task_id s))
  unfolding enqueue
  enqueue_refines task_id s =
      Follows-eq (view s) (view s) (enqueue_view task_id)
        (λ v. let (c, u) = set_nx_view (enqueued task_id) v in claimed_view task_id c u) _
        (sym (enqueue_steps task_id (view s)))
        (Follows-bind view (redis.set_nx (enqueued task_id) settings.task_queue_marker_ttl_seconds)
          (λ claimed.
            (when claimed false (
              on_error (redis.lrem processing 0 task_id >> redis.lpush ready task_id)
                (redis.delete (enqueued task_id) >> raise)
              >> pure true)))
          (set_nx_view (enqueued task_id)) (claimed_view task_id) s
          (server.set_nx_law (enqueued task_id) settings.task_queue_marker_ttl_seconds s)
          (when_claimed task_id))

  -- If `acknowledge` answers, it did what `acknowledge_view` says.
  pub acknowledge_refines :
      (task_id : ℕ) (s : S)
      → Follows
          (view s)
          (acknowledge_view task_id)
          (seen view (acknowledge redis settings task_id s))
  unfolding acknowledge acknowledge_view
  acknowledge_refines task_id s =
      Follows-bind view (redis.lrem processing 1 task_id) (λ _. redis.delete (enqueued task_id))
        (lrem_view processing 1 task_id) (λ _. delete_view (enqueued task_id)) s
        (server.lrem_law processing 1 task_id s) λ _ s'. server.delete_law (enqueued task_id) s'

  when_removed :
      (task_id removed : ℕ) (s : S)
      → Follows
          (view s)
          (released_view task_id removed)
          (seen view (when (ltb 0 removed) tt (redis.rpush ready task_id) s))
  when_removed task_id removed s = go (ltb 0 removed)
    where
      go :
          (b : Bool)
          → Follows
              (view s)
              (λ v. if b then rpush_view ready task_id v else (tt, v))
              (seen view (when b tt (redis.rpush ready task_id) s))
      go true = server.rpush_law ready task_id s
      go false = refl

  -- If `release` answers, it did what `release_view` says.
  pub release_refines :
      (task_id : ℕ) (s : S)
      → Follows (view s) (release_view task_id) (seen view (release redis settings task_id s))
  unfolding release
  release_refines task_id s =
      Follows-eq (view s) (view s) (release_view task_id)
        (λ v.
          let (removed, u) = lrem_view processing 1 task_id v in released_view task_id removed u)
        _ (sym (release_steps task_id (view s)))
        (Follows-bind view (redis.lrem processing 1 task_id)
          (λ removed. when (ltb 0 removed) tt (redis.rpush ready task_id))
          (lrem_view processing 1 task_id) (released_view task_id) s
          (server.lrem_law processing 1 task_id s) (when_removed task_id))
