-- ===== src/Log/Paging.antt =====
-- Reading a numbered log in pages: `TaskRepository.list_events` and `EventService.list_owned`.
use mathlib.Core.Path.{subst, ◌∙◌}
use native.Mathlib.Nat.{add-zero, suc-add, zero-mul}
use baa_system.Base.{
  ℕ, zero, suc, ◌+◌, ◌*◌, ◌≡◌, refl, ap, List, [], ◌∷◌, ◌++◌, arith, take, drop, length,
  order_by-Numbered, select_above, Numbered, or_else, some,
}
use baa_system.Models.{AnalysisTask, Database, TaskEvent}
use baa_system.Events.{list_owned, last_seq}
use baa_system.Repository.{events_of, list_events}
use baa_system.Settings.{Settings}
use baa_system.Log.Numbering.{IsNumbered}

module _ {ℓ} {A : Type ℓ} (key : A → ℕ) where
  pub Numbered-drop : (k n : ℕ) (xs : List A) → Numbered key n xs → Numbered key (n + k) (drop k xs)
  Numbered-drop zero n xs h = subst (λ m. Numbered key m xs) (omega arith) h
  Numbered-drop (suc k) n [] h = tt
  Numbered-drop (suc k) n (x ∷ xs) h =
      subst (λ m. Numbered key m (drop k xs)) (omega arith) (Numbered-drop k (suc n) xs h.1)

-- `list_events` of a numbered log, from `after_seq` on, gives the log without its first `after_seq`
-- events, cut at the limit.
pub list_events_lem :
    (db : Database) (id after_seq limit : ℕ)
    → IsNumbered db
    → list_events db id after_seq limit ≡ take limit (drop after_seq (events_of id db.events))
unfolding list_events
list_events_lem db id after_seq limit h =
    rw
      (select_above (λ (e : TaskEvent). e.event_seq) after_seq 0 after_seq (events_of id db.events)
        (omega arith) (h id))
      (ap (take limit) (
        order_by-Numbered (λ (e : TaskEvent). e.event_seq) (1 + after_seq)
          (drop after_seq (events_of id db.events))
          (Numbered-drop (λ (e : TaskEvent). e.event_seq) after_seq 1 (events_of id db.events)
            (h id))))

module _ {ℓ} {A : Type ℓ} where
  take-append_drop : (k n : ℕ) (xs : List A) → take k xs ++ take n (drop k xs) ≡ take (k + n) xs
  take-append_drop zero n xs = ap (λ m. take m xs) (omega arith)
  take-append_drop (suc k) zero [] = rw add-zero
  take-append_drop (suc k) (suc n) [] = rw suc-add
  take-append_drop (suc k) n (x ∷ xs) = rw (suc-add, take-append_drop k n xs)

  drop-length-take : (k : ℕ) (xs : List A) → drop (length (take k xs)) xs ≡ drop k xs
  drop-length-take zero xs = refl
  drop-length-take (suc k) [] = refl
  drop-length-take (suc k) (x ∷ xs) = drop-length-take k xs

  drop-add : (a b : ℕ) (xs : List A) → drop (a + b) xs ≡ drop b (drop a xs)
  drop-add zero b xs = ap (λ m. drop m xs) (omega arith)
  drop-add (suc a) zero [] = rw add-zero
  drop-add (suc a) (suc b) [] = rw suc-add
  drop-add (suc a) b (x ∷ xs) = rw (suc-add, drop-add a b xs)

  pub Numbered-take :
      (key : A → ℕ) (k n : ℕ) (xs : List A) → Numbered key n xs → Numbered key n (take k xs)
  Numbered-take key zero n xs h = tt
  Numbered-take key (suc k) n [] h = tt
  Numbered-take key (suc k) n (x ∷ xs) h = (h.0, Numbered-take key k (suc n) xs h.1)

-- `last_event_seq` of a page is the number of its last event.
last_seq-Numbered :
    (after : ℕ) (es : List TaskEvent)
    → Numbered (λ (e : TaskEvent). e.event_seq) (suc after) es
    → last_seq after es ≡ after + length es
unfolding last_seq
last_seq-Numbered after [] h = omega arith
last_seq-Numbered after (e ∷ es) h = rw h.0 (last_seq-Numbered (suc after) es h.1 ∙ omega arith)

-- A client that asks `rounds` times, each time from the `last_event_seq` of the answer before.
unfoldable pub read_pages : Settings → Database → AnalysisTask → ℕ → ℕ → ℕ → List TaskEvent
read_pages settings db task limit zero after_seq = []
read_pages settings db task limit (suc rounds) after_seq =
    let page = list_owned settings db task after_seq (some limit) in
    page.items ++ read_pages settings db task limit rounds page.last_event_seq

module _ (settings : Settings) (db : Database) (task : AnalysisTask) (h : IsNumbered db) where
  abbrev log : List TaskEvent
  log = events_of task.id db.events

  -- `limit` for the page is the given one, or the setting if that is 0.
  abbrev page_limit : ℕ → ℕ
  page_limit limit = or_else (some limit) settings.task_event_replay_limit

  page_items :
      (after limit : ℕ)
      → (list_owned settings db task after (some limit)).items
        ≡ take (page_limit limit) (drop after log)
  unfolding list_owned
  page_items after limit = list_events_lem db task.id after (page_limit limit) h

  page_last :
      (after limit : ℕ)
      → (list_owned settings db task after (some limit)).last_event_seq
        ≡ after + length (take (page_limit limit) (drop after log))
  unfolding list_owned
  page_last after limit = rw (list_events_lem db task.id after (page_limit limit) h) (
      last_seq-Numbered after _ (
        Numbered-take (λ (e : TaskEvent). e.event_seq) (page_limit limit) (suc after) _
          (subst (λ n. Numbered (λ (e : TaskEvent). e.event_seq) n (drop after log)) (omega arith)
            (Numbered-drop (λ (e : TaskEvent). e.event_seq) after 1 log (h task.id)))))

  -- On a numbered log the pages that a client reads one after the other, each from the last number
  -- of the one before, are together the task's log after `after_seq`, each event once and in order,
  -- up to `rounds` times the page limit.
  pub read_pages_lem :
      (limit rounds after_seq : ℕ)
      → read_pages settings db task limit rounds after_seq
        ≡ take (rounds * page_limit limit) (drop after_seq log)
  unfolding read_pages
  read_pages_lem limit zero after = rw zero-mul
  read_pages_lem limit (suc rounds) after =
      let p = page_limit limit in
      let rest = drop after log in
      rw
        (
          page_items after limit,
          read_pages_lem limit rounds
              (list_owned settings db task after (some limit)).last_event_seq,
          page_last after limit,
          drop-add after (length (take p rest)) log,
          drop-length-take p rest,
          take-append_drop p (rounds * p) rest,
        )
        (ap (λ m. take m rest) (omega arith))
