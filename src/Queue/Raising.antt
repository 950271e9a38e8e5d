-- ===== src/Queue/Raising.antt =====
-- An `enqueue` that raises, command by command.
use mathlib.Core.Path.{◌∙◌, subst}
use baa_system.Base.{
  ◌≢◌, ℕ, ◌≡◌, refl, sym, ap, Bool, true, false, Option, none, some, arith, Bool-cases, inl, inr,
}
use baa_system.Redis.{
  RedisClient, View, Key, seen, enqueued, ready, processing, set_nx_view, delete_view, lrem_view,
  lpush_view, ◌>>◌, on_error, raise, pure, when, ListKey,
}
use baa_system.Settings.{Settings}
use baa_system.Queue.{enqueue}
use baa_system.Queue.Failures.{
  done, EnqueueFailure, at_claim, at_removal, at_push, claim, take_off, enqueue_failed,
}

-- A command that answers did what the function on views says, and one that raises has been executed
-- or not.
abbrev pub Ran : {A : Type 0} → View → (View → A × View) → Option A × View → Type 0
Ran v f (none, v') = (executed : Bool) × (v' ≡ done executed f v)
Ran v f (some a, v') = f v ≡ (a, v')

-- The commands of `enqueue`.
pub record IsAtomic {S : Type 0} (view : S → View) (redis : RedisClient S) : Type 0 where
  pub set_nx_ran :
      (key : Key) (ttl : ℕ) (s : S)
      → Ran (view s) (set_nx_view key) (seen view (redis.set_nx key ttl s))
  pub delete_ran :
      (key : Key) (s : S) → Ran (view s) (delete_view key) (seen view (redis.delete key s))
  pub lrem_ran :
      (list : ListKey) (count a : ℕ) (s : S)
      → Ran (view s) (lrem_view list count a) (seen view (redis.lrem list count a s))
  pub lpush_ran :
      (list : ListKey) (a : ℕ) (s : S)
      → Ran (view s) (lpush_view list a) (seen view (redis.lpush list a s))

-- The marker that was set for a failed removal or push has been deleted.
abbrev pub is_cleaned : EnqueueFailure → Bool
is_cleaned (at_claim executed) = true
is_cleaned (at_removal executed deleted) = deleted
is_cleaned (at_push executed deleted) = deleted

module _ {S : Type 0} (redis : RedisClient S) (settings : Settings) (view : S → View)
    (atomic : IsAtomic view redis) (task_id : ℕ) (v : View) where
  abbrev Answers : Type 0
  Answers = (s : S) → (redis.delete (enqueued task_id) s).0 ≢ none

  -- Where it raises, the keys are as a failure leaves them, and one that has deleted the marker if
  -- that command answers.
  abbrev Explained : Option Bool × S → Type 0
  Explained (a, s') =
      a ≡ none
      → (failure : EnqueueFailure) × (view s' ≡ enqueue_failed task_id failure v)
        × (Answers → is_cleaned failure ≡ true)

  -- The handler, and what is raised after it.
  abbrev cleaned : Option (Unit {0}) × S → Option Bool × S
  cleaned (a, s') =
      let (b, s'') : Option (Unit {0}) × S = elim a [ none ↦ (none, s') | some x ↦ (none, s') ] in
      elim b [ none ↦ (none, s'') | some x ↦ (some true, s'') ]

  handled :
      (u : View) (failure : Bool → EnqueueFailure)
      → ((deleted : Bool)
          → done deleted (delete_view (enqueued task_id)) u
            ≡ enqueue_failed task_id (failure deleted) v)
      → is_cleaned (failure true) ≡ true
      → (r : Option (Unit {0}) × S) → Ran u (delete_view (enqueued task_id)) (seen view r)
      → (Answers → r.0 ≢ none)
      → Explained (cleaned r)
  handled u failure known clean (none, s') (deleted, e) never =
      λ _. (failure deleted, e ∙ known deleted, λ answers. absurd (never answers refl))
  handled u failure known clean (some x, s') e never =
      λ _. (failure true, sym (ap (λ r. r.1) e) ∙ known true, λ _. clean)

  -- What follows the push, and what follows the removal.
  abbrev finished : Option (Unit {0}) × S → Option Bool × S
  finished (a, s') =
      let (b, s'') : Option (Unit {0}) × S = elim a [
        | none ↦ (redis.delete (enqueued task_id) >> raise) s'
        | some x ↦ (some x, s')
      ] in
      elim b [ none ↦ (none, s'') | some x ↦ (some true, s'') ]

  module _ (unmarked : v.marked (enqueued task_id) ≡ false) where
    pushed :
        (r : Option (Unit {0}) × S)
        → Ran (take_off 0 task_id (claim task_id v)) (lpush_view ready task_id) (seen view r)
        → Explained (finished r)
    pushed (some x, s') e = λ raised. absurd cc
    pushed (none, s') (executed, e) =
        handled (view s') (at_push executed)
          (λ deleted.
            ap (done deleted (delete_view (enqueued task_id))) e
            ∙ unfold enqueue_failed in rw unmarked refl)
          refl (redis.delete (enqueued task_id) s') (atomic.delete_ran (enqueued task_id) s')
          (λ answers. answers s')

    removed :
        (r : Option ℕ × S)
        → Ran (claim task_id v) (lrem_view processing 0 task_id) (seen view r)
        → Explained (
            finished (
              let (a, s') = r in
              elim a [ none ↦ (none, s') | some x ↦ redis.lpush ready task_id s' ]))
    removed (none, s') (executed, e) =
        handled (view s') (at_removal executed)
          (λ deleted.
            ap (done deleted (delete_view (enqueued task_id))) e
            ∙ unfold enqueue_failed in rw unmarked refl)
          refl (redis.delete (enqueued task_id) s') (atomic.delete_ran (enqueued task_id) s')
          (λ answers. answers s')
    removed (some n, s') e = pushed (redis.lpush ready task_id s') (
        subst (λ u. Ran u (lpush_view ready task_id) (seen view (redis.lpush ready task_id s')))
          (sym (ap (λ r. r.1) e)) (atomic.lpush_ran ready task_id s'))

  refused :
      (u : View)
      → set_nx_view (enqueued task_id) v ≡ (true, u)
      → v.marked (enqueued task_id) ≡ true
      → ⊥
  refused u e marked = ground (arith, ap (λ r. r.0) e)

  claimed_unmarked :
      (u : View)
      → set_nx_view (enqueued task_id) v ≡ (true, u)
      → v.marked (enqueued task_id) ≡ false
  claimed_unmarked u e = elim (Bool-cases (v.marked (enqueued task_id))) [
    | inl marked ↦ absurd (refused u e marked)
    | inr unmarked ↦ unmarked
  ]

  claimed :
      (r : Option Bool × S)
      → Ran v (set_nx_view (enqueued task_id)) (seen view r)
      → Explained (
          let (a, s') = r in
          elim a [
            | none ↦ (none, s')
            | some c ↦
                when c false
                  (on_error
                      (redis.lrem processing 0 task_id >> redis.lpush ready task_id)
                      (redis.delete (enqueued task_id) >> raise)
                    >> pure true)
                  s'
          ])
  claimed (none, s') (executed, e) =
      λ _. (at_claim executed, e ∙ unfold enqueue_failed in refl, λ _. refl)
  claimed (some false, s') e = λ raised. absurd cc
  claimed (some true, s') e =
      removed (claimed_unmarked (view s') e) (redis.lrem processing 0 task_id s') (
        subst
          (λ u.
            Ran u (lrem_view processing 0 task_id) (seen view (redis.lrem processing 0 task_id s')))
          (sym (ap (λ r. r.1) e)) (atomic.lrem_ran processing 0 task_id s'))

module _ {S : Type 0} (redis : RedisClient S) (settings : Settings) (view : S → View)
    (atomic : IsAtomic view redis) where
  explained :
      (task_id : ℕ) (s : S)
      → Explained redis settings view atomic task_id (view s) (enqueue redis settings task_id s)
  unfolding enqueue
  explained task_id s =
      claimed redis settings view atomic task_id (view s)
        (redis.set_nx (enqueued task_id) settings.task_queue_marker_ttl_seconds s)
        (atomic.set_nx_ran (enqueued task_id) settings.task_queue_marker_ttl_seconds s)

  -- If a command that raises was executed or not, then an `enqueue` that raises leaves the keys as
  -- `enqueue_failed` says for one of the failures.
  pub enqueue_raises_lem :
      (task_id : ℕ) (s : S)
      → (enqueue redis settings task_id s).0 ≡ none
      → (failure : EnqueueFailure) × (view (enqueue redis settings task_id s).1
          ≡ enqueue_failed task_id failure (view s))
  enqueue_raises_lem task_id s raised =
      let (failure, e, clean) = explained task_id s raised in (failure, e)

  -- If a command that raises was executed or not, and the deletion of the marker answers, then an
  -- `enqueue` that raises leaves the keys as `enqueue_failed` says for one of the failures: the claim
  -- has raised, or the marker that was set has been deleted.
  pub enqueue-is_cleaned :
      (task_id : ℕ) (s : S)
      → ((s' : S) → (redis.delete (enqueued task_id) s').0 ≢ none)
      → (enqueue redis settings task_id s).0 ≡ none
      → (failure : EnqueueFailure) × (view (enqueue redis settings task_id s).1
          ≡ enqueue_failed task_id failure (view s))
        × (is_cleaned failure ≡ true)
  enqueue-is_cleaned task_id s answers raised =
      let (failure, e, clean) = explained task_id s raised in (failure, e, clean answers)
