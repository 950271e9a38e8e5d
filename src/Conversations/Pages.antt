-- ===== src/Conversations/Pages.antt =====
-- One page of messages, read from the newest on, and the list lemmas that it needs.
use mathlib.Core.Path.{◌∙◌}
use mathlib.Core.List.{reverse-reverse, reverse-cons}
use baa_system.Base.{
  ℕ, zero, suc, ◌+◌, ◌-◌, ◌≤◌, ◌<◌, ◌≡◌, refl, sym, ap, true, false, none, some, List, [], ◌∷◌,
  ◌++◌, reverse, arith, length, length-append, take, drop, select, ltb, leb, Numbered,
  if◌then◌else◌, Bool-cases, inl, inr,
}
use baa_system.Models.{Message}
use baa_system.Conversations.Service.{MessagePage, page_of, last_message}
use baa_system.Log.Paging.{Numbered-drop}

module _ {ℓ} {A : Type ℓ} where
  take_nil : (n : ℕ) → take {A = A} n [] ≡ []
  take_nil zero = refl
  take_nil (suc n) = refl

  drop_nil : (n : ℕ) → drop {A = A} n [] ≡ []
  drop_nil zero = refl
  drop_nil (suc n) = refl

  length-reverse : (xs : List A) → length (reverse xs) ≡ length xs
  length-reverse [] = refl
  length-reverse (x ∷ xs) =
      rw (reverse-cons x xs) (omega (arith, length-append (reverse xs) (x ∷ []), length-reverse xs))

  take-append_one :
      (n : ℕ) (xs : List A) (x : A)
      → take n (xs ++ x ∷ []) ≡ (if leb n (length xs) then take n xs else xs ++ x ∷ [])
  take-append_one zero [] x = ground arith
  take-append_one zero (y ∷ xs) x = ground arith
  take-append_one (suc n) [] x = rw (take_nil n) (ground arith)
  take-append_one (suc n) (y ∷ xs) x = ground (arith, take-append_one n xs x)

  pub no_length : (xs : List A) → length xs ≤ 0 → [] ≡ xs
  no_length [] h = refl
  no_length (x ∷ xs) h = absurd (omega arith)

  -- The last `n` elements, taken from the reversed list.
  reverse-take-reverse :
      (n : ℕ) (xs : List A) → reverse (take n (reverse xs)) ≡ drop (length xs - n) xs
  reverse-take-reverse n [] = rw (take_nil n, drop_nil (0 - n))
  reverse-take-reverse n (x ∷ xs) = elim (Bool-cases (leb n (length xs))) [
    | inl e ↦
        let left : length (x ∷ xs) - n ≡ suc (length xs - n) = ground arith in
        rw (reverse-cons x xs, take-append_one n (reverse xs) x, length-reverse xs, e, left)
          (reverse-take-reverse n xs)
    | inr e ↦
        let left : length (x ∷ xs) - n ≡ 0 = ground arith in
        rw (reverse-cons x xs, take-append_one n (reverse xs) x, length-reverse xs, e, left)
          (rw (← reverse-cons x xs) (reverse-reverse (x ∷ xs)))
  ]

  pub take-take : (a k : ℕ) (xs : List A) → a ≤ k → take a (take k xs) ≡ take a xs
  take-take zero k xs h = refl
  take-take (suc a) zero xs h = absurd (omega arith)
  take-take (suc a) (suc k) [] h = refl
  take-take (suc a) (suc k) (x ∷ xs) h = ap (λ r. x ∷ r) (take-take a k xs (omega arith))

  pub take-append-drop : (n : ℕ) (xs : List A) → take n xs ++ drop n xs ≡ xs
  take-append-drop zero xs = refl
  take-append-drop (suc n) [] = refl
  take-append-drop (suc n) (x ∷ xs) = ap (λ r. x ∷ r) (take-append-drop n xs)

  pub length-take :
      (n : ℕ) (xs : List A) → length (take n xs) ≡ (if leb n (length xs) then n else length xs)
  length-take zero [] = ground arith
  length-take zero (x ∷ xs) = ground arith
  length-take (suc n) [] = ground arith
  length-take (suc n) (x ∷ xs) = ground (arith, length-take n xs)

  length-drop : (n : ℕ) (xs : List A) → length (drop n xs) ≡ length xs - n
  length-drop zero xs = omega arith
  length-drop (suc n) [] = omega arith
  length-drop (suc n) (x ∷ xs) = omega (arith, length-drop n xs)

  pub select_below :
      (key : A → ℕ) (n b : ℕ) (xs : List A)
      → Numbered key (suc n) xs
      → select (λ x. ltb (key x) b) xs ≡ take (b - suc n) xs
  unfolding select
  select_below key n b [] h = sym (take_nil (b - suc n))
  select_below key n b (x ∷ xs) h = elim (Bool-cases (ltb (suc n) b)) [
    | inl e ↦
        let left : b - suc n ≡ suc (b - suc (suc n)) = ground arith in
        rw (h.0, e, left) (ap (λ r. x ∷ r) (select_below key (suc n) b xs h.1))
    | inr e ↦
        let none_left : b - suc n ≡ 0 = ground arith in
        let none_later : b - suc (suc n) ≡ 0 = ground arith in
        rw (h.0, e, none_left) (select_below key (suc n) b xs h.1 ∙ ap (λ k. take k xs) none_later)
  ]

  pub select-true : (xs : List A) → select (λ x. true) xs ≡ xs
  unfolding select
  select-true [] = refl
  select-true (x ∷ xs) = ap (λ r. x ∷ r) (select-true xs)

abbrev pub NumberedFrom : ℕ → List Message → Type 0
NumberedFrom n ms = Numbered (λ (m : Message). m.seq_no) n ms

last_message-append :
    (ms : List Message) (m : Message) → last_message (ms ++ m ∷ []) ≡ some m.seq_no
unfolding last_message
last_message-append [] m = refl
last_message-append (x ∷ []) m = refl
last_message-append (x ∷ y ∷ ms) m = last_message-append (y ∷ ms) m

-- The cursor after a page is the number of its oldest message.
last_message-reverse :
    (n : ℕ) (ms : List Message)
    → NumberedFrom n ms
    → 0 < length ms
    → last_message (reverse ms) ≡ some n
last_message-reverse n [] h p = absurd (omega arith)
last_message-reverse n (m ∷ ms) h p =
    rw (reverse-cons m ms) (last_message-append (reverse ms) m ∙ ap some h.0)

-- A page of the messages that are older than the cursor.
module _ (limit : ℕ) (some_limit : 1 ≤ limit) (o : List Message) (h : NumberedFrom 1 o) where
  abbrev page : MessagePage
  page = page_of limit (take (limit + 1) (reverse o))

  first_rows : take limit (take (limit + 1) (reverse o)) ≡ take limit (reverse o)
  first_rows = take-take limit (limit + 1) (reverse o) (omega arith)

  pub page_items : page.items ≡ drop (length o - limit) o
  unfolding page_of
  page_items = rw first_rows (reverse-take-reverse limit o)

  more_rows : ltb limit (length (take (limit + 1) (reverse o))) ≡ ltb limit (length o)
  more_rows = rw (length-take (limit + 1) (reverse o), length-reverse o) (ground arith)

  rows_reversed : take limit (reverse o) ≡ reverse (drop (length o - limit) o)
  rows_reversed =
      sym (reverse-reverse (take limit (reverse o))) ∙ ap reverse (reverse-take-reverse limit o)

  pub page_next : ltb limit (length o) ≡ true → page.next_cursor ≡ some (1 + (length o - limit))
  unfolding page_of
  page_next e =
      rw (more_rows, e, first_rows, rows_reversed)
        (last_message-reverse (1 + (length o - limit)) (drop (length o - limit) o)
          (Numbered-drop (λ (m : Message). m.seq_no) (length o - limit) 1 o h)
          (ground (arith, length-drop (length o - limit) o)))

  pub page_last : ltb limit (length o) ≡ false → page.next_cursor ≡ none
  unfolding page_of
  page_last e = rw (more_rows, e)
