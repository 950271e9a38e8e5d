-- ===== src/Lifecycle/Calls.antt =====
-- What a call of `TaskService.transition` does, by how it ends.
use mathlib.Core.Path.{◌∙◌, subst}
use baa_system.Base.{
  ℕ, ◌≡◌, refl, sym, ap, Bool, true, false, not, ◌&&◌, Option, none, some, arith, Bool-cases,
  Option-cases, inl, inr,
}
use baa_system.Models.{AnalysisTask, TaskStatus, running, success, status_eq}
use baa_system.Exceptions.{Result, ok, err}
use baa_system.Redis.{RedisClient}
use baa_system.Events.{publish}
use baa_system.Repository.{get_by_id, has_complete_result}
use baa_system.Tasks.World.{World, allowed_transition, flush}
use baa_system.Tasks.Transition.{
  TransitionArgs, moved, transition_specs, transition_row, transition,
}
use baa_system.Lifecycle.Invariant.{IsValid}
use baa_system.Lifecycle.Moves.{after_move, move-IsValid, incomplete_result}

module _ {S : Type 0} (redis : RedisClient S) where
  -- What a call of `transition` that began in `w` has done, by how it ended: nothing, or it moved
  -- the stored task along an allowed edge.
  abbrev pub Moved :
      ℕ
      → ℕ
      → TaskStatus
      → TransitionArgs
      → World S
      → Result (Option AnalysisTask) × World S
      → Type 0
  Moved now id target args w (err e, w') = w' ≡ w
  Moved now id target args w (ok none, w') = w' ≡ w
  Moved now id target args w (ok (some t'), w') =
      (t : AnalysisTask) × (get_by_id w.db id ≡ some t)
      × (allowed_transition t.task_status target ≡ true)
      × ((status_eq target success && not (has_complete_result w.db t.id)) ≡ false)
      × (t' ≡ moved now target args t)
      × (w'.db ≡ after_move w.db now target args t)

  -- The three ends of `transition` on a stored row, as equations.
  transition_row_refused :
      (now : ℕ) (t : AnalysisTask) (target : TaskStatus) (args : TransitionArgs) (w : World S)
      → allowed_transition t.task_status target ≡ false
      → transition_row redis now t target args w ≡ (ok none, w)
  unfolding transition_row
  transition_row_refused now t target args w e = rw e

  transition_row_incomplete :
      (now : ℕ) (t : AnalysisTask) (target : TaskStatus) (args : TransitionArgs) (w : World S)
      → allowed_transition t.task_status target ≡ true
      → (status_eq target success && not (has_complete_result w.db t.id)) ≡ true
      → transition_row redis now t target args w ≡ (err incomplete_result, w)
  unfolding transition_row
  transition_row_incomplete now t target args w e c = rw (e, c)

  transition_row_moves :
      (now : ℕ) (t : AnalysisTask) (target : TaskStatus) (args : TransitionArgs) (w : World S)
      → allowed_transition t.task_status target ≡ true
      → (status_eq target success && not (has_complete_result w.db t.id)) ≡ false
      → transition_row redis now t target args w ≡ (
        ok (some (moved now target args t)),
        record {
          db = after_move w.db now target args t;
          redis =
              publish redis
                (flush w.db now
                  (moved now target args t)
                  (transition_specs now target args (moved now target args t))).1
                w.redis;
        },
      )
  unfolding transition_row
  transition_row_moves now t target args w e c = rw (e, c)

  complete_of :
      (target : TaskStatus) (b : Bool)
      → (status_eq target success && not b) ≡ false
      → target ≡ success
      → b ≡ true
  complete_of target b h e = ground arith

  incomplete_of :
      (target : TaskStatus) (b : Bool)
      → (target ≡ success → b ≡ true)
      → (status_eq target success && not b) ≡ false
  incomplete_of success b h = ground (arith, h refl)
  incomplete_of _ b h = refl

  transition_row-Moved :
      (now id : ℕ) (t : AnalysisTask) (target : TaskStatus) (args : TransitionArgs) (w : World S)
      → get_by_id w.db id ≡ some t
      → Moved now id target args w (transition_row redis now t target args w)
  transition_row-Moved now id t target args w h =
      elim (Bool-cases (allowed_transition t.task_status target)) [
        | inr e ↦
            subst (Moved now id target args w) (sym (transition_row_refused now t target args w e))
              refl
        | inl e ↦
            elim (Bool-cases (status_eq target success && not (has_complete_result w.db t.id))) [
              | inr c ↦
                  subst (Moved now id target args w)
                    (sym (transition_row_moves now t target args w e c)) (t, h, e, c, refl, refl)
              | inl c ↦
                  subst (Moved now id target args w)
                    (sym (transition_row_incomplete now t target args w e c)) refl
            ]
      ]

  transition_found :
      (now id : ℕ) (t : AnalysisTask) (target : TaskStatus) (args : TransitionArgs) (w : World S)
      → get_by_id w.db id ≡ some t
      → transition redis now id target args w ≡ transition_row redis now t target args w
  unfolding transition
  transition_found now id t target args w e = rw (e, transition)

  transition_missing :
      (now id : ℕ) (target : TaskStatus) (args : TransitionArgs) (w : World S)
      → get_by_id w.db id ≡ none
      → transition redis now id target args w ≡ (ok none, w)
  unfolding transition
  transition_missing now id target args w e = rw (e, transition)

  -- A call of `transition` raises or returns `None` and changes nothing, or it moved the stored
  -- task along an edge of `ALLOWED_TRANSITIONS`, to `success` only with a complete result: the new
  -- database is the old one with the moved row and its events.
  pub transition-Moved :
      (now id : ℕ) (target : TaskStatus) (args : TransitionArgs) (w : World S)
      → Moved now id target args w (transition redis now id target args w)
  transition-Moved now id target args w = elim (Option-cases (get_by_id w.db id)) [
    | inl e ↦
        subst (Moved now id target args w) (sym (transition_missing now id target args w e)) refl
    | inr (t, e) ↦
        subst (Moved now id target args w) (sym (transition_found now id t target args w e))
          (transition_row-Moved now id t target args w e)
  ]

  Moved-IsValid :
      (now id : ℕ) (target : TaskStatus) (args : TransitionArgs) (w : World S)
      (r : Result (Option AnalysisTask)) (w' : World S)
      → IsValid w.db
      → Moved now id target args w (r, w')
      → IsValid w'.db
  Moved-IsValid now id target args w (err e) w' v m =
      subst (λ (x : World S). IsValid x.db) (sym m) v
  Moved-IsValid now id target args w (ok none) w' v m =
      subst (λ (x : World S). IsValid x.db) (sym m) v
  Moved-IsValid now id target args w (ok (some t')) w' v (t, h, e, c, _, d) =
      subst IsValid (sym d) (
        move-IsValid w.db now id target args t v h e
          (complete_of target (has_complete_result w.db t.id) c))

  -- Whatever the arguments and the Redis server, `transition` keeps the invariant of the database.
  pub transition-IsValid :
      (now id : ℕ) (target : TaskStatus) (args : TransitionArgs) (w : World S)
      → IsValid w.db
      → IsValid (transition redis now id target args w).1.db
  transition-IsValid now id target args w v =
      let (r, w') = transition redis now id target args w in
      Moved-IsValid now id target args w r w' v (transition-Moved now id target args w)

  -- A call on a stored task, along an allowed edge, to `success` only with a complete result, returns
  -- the moved row; and the committed database is the old one after the move.
  pub transition_moves :
      (now id : ℕ) (target : TaskStatus) (args : TransitionArgs) (t : AnalysisTask) (w : World S)
      → get_by_id w.db id ≡ some t
      → allowed_transition t.task_status target ≡ true
      → (target ≡ success → has_complete_result w.db t.id ≡ true)
      → ((transition redis now id target args w).0 ≡ ok (some (moved now target args t)))
        × ((transition redis now id target args w).1.db ≡ after_move w.db now target args t)
  transition_moves now id target args t w h e c =
      let q =
        transition_found now id t target args w h
        ∙ transition_row_moves now t target args w e (incomplete_of target _ c) in
      (ap (λ r. r.0) q, ap (λ r. r.1.db) q)

  -- A call for `success` on a running task without a complete result raises, and changes nothing.
  pub transition_incomplete :
      (now id : ℕ) (args : TransitionArgs) (t : AnalysisTask) (w : World S)
      → get_by_id w.db id ≡ some t
      → t.task_status ≡ running
      → has_complete_result w.db t.id ≡ false
      → transition redis now id success args w ≡ (err incomplete_result, w)
  transition_incomplete now id args t w h r c =
      transition_found now id t success args w h
      ∙ transition_row_incomplete now t success args w (ground arith) (ground arith)
