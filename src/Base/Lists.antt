-- ===== src/Base/Lists.antt =====
-- Lists measured by native numbers, rows of a table selected by a Boolean condition, and Python's
-- `dict.fromkeys`.
use Prim.Native.Nat.{ℕ, zero, suc, ◌+◌, ◌≤◌, max}
use mathlib.Core.Path.{◌≡◌, refl, ap, subst}
use mathlib.Core.Logic.{◌⊎◌, inl, inr}
use mathlib.Core.Bool.{Bool, true, false, ◌||◌}
use mathlib.Core.Option.{Option, none, some}
use mathlib.Core.List.{List, [], ◌∷◌, ◌++◌}
use native.Mathlib.Omega.{arith}
use baa_system.Base.Tests.{ltb, leb, ◌==◌, if◌then◌else◌}

module _ {ℓ} {A : Type ℓ} where
  abbrev pub length : List A → ℕ
  length [] = 0
  length (x ∷ xs) = suc (length xs)

  abbrev pub take : ℕ → List A → List A
  take zero xs = []
  take (suc n) [] = []
  take (suc n) (x ∷ xs) = x ∷ take n xs

  abbrev pub drop : ℕ → List A → List A
  drop zero xs = xs
  drop (suc n) [] = []
  drop (suc n) (x ∷ xs) = drop n xs

  abbrev pub is_empty : List A → Bool
  is_empty [] = true
  is_empty (x ∷ xs) = false

  pub length-append : (xs ys : List A) → length (xs ++ ys) ≡ length xs + length ys
  length-append [] ys = omega arith
  length-append (x ∷ xs) ys = omega (arith, length-append xs ys)

  pub take_all : (n : ℕ) (xs : List A) → length xs ≤ n → take n xs ≡ xs
  take_all zero [] h = refl
  take_all zero (x ∷ xs) h = absurd (omega arith)
  take_all (suc n) [] h = refl
  take_all (suc n) (x ∷ xs) h = ap (λ r. x ∷ r) (take_all n xs (omega arith))

-- The rows for which the condition holds, in the table's order, and the first of them.
module _ {ℓ} {A : Type ℓ} where
  unfoldable pub select : (A → Bool) → List A → List A
  select p [] = []
  select p (x ∷ xs) = let rest = select p xs in if p x then x ∷ rest else rest

  unfoldable pub scalar : (A → Bool) → List A → Option A
  scalar p [] = none
  scalar p (x ∷ xs) = if p x then some x else scalar p xs

  pub select-append :
      (p : A → Bool) (xs ys : List A) → select p (xs ++ ys) ≡ select p xs ++ select p ys
  unfolding select
  select-append p [] ys = refl
  select-append p (x ∷ xs) ys = ground (arith, select-append p xs ys)

  pub scalar_holds : (p : A → Bool) (xs : List A) (x : A) → scalar p xs ≡ some x → p x ≡ true
  unfolding scalar
  scalar_holds p [] x h = cc
  scalar_holds p (y ∷ xs) x h = ground (arith, scalar_holds p xs x)

-- `x in xs` on a list of identifiers.
abbrev pub contains : ℕ → List ℕ → Bool
contains a [] = false
contains a (x ∷ xs) = a == x || contains a xs

-- Redis `LREM key 0 a` and `LREM key 1 a`.
unfoldable pub remove_all : ℕ → List ℕ → List ℕ
remove_all a [] = []
remove_all a (x ∷ xs) = let rest = remove_all a xs in if a == x then rest else x ∷ rest

unfoldable pub remove_first : ℕ → List ℕ → List ℕ
remove_first a [] = []
remove_first a (x ∷ xs) = if a == x then xs else x ∷ remove_first a xs

-- `list(dict.fromkeys(xs))`: the first occurrence of each element, in order.
unfoldable pub unique_from : List ℕ → List ℕ → List ℕ
unique_from seen [] = []
unique_from seen (x ∷ xs) =
    let rest = unique_from (x ∷ seen) xs in
    let skip = unique_from seen xs in if contains x seen then skip else x ∷ rest

unfoldable pub unique : List ℕ → List ℕ
unfolding unique_from
unique xs = unique_from [] xs

-- `ORDER BY key ASC`: a stable insertion sort.
module _ {ℓ} {A : Type ℓ} where
  insert_by : (A → ℕ) → A → List A → List A
  insert_by key x [] = x ∷ []
  insert_by key x (y ∷ ys) = if leb (key x) (key y) then x ∷ y ∷ ys else y ∷ insert_by key x ys

  unfoldable pub order_by : (A → ℕ) → List A → List A
  unfolding insert_by
  order_by key [] = []
  order_by key (x ∷ xs) = insert_by key x (order_by key xs)

  -- `max(key)` over the rows, 0 for none (`func.max(...) or 0`).
  unfoldable pub max_by : (A → ℕ) → List A → ℕ
  max_by key [] = 0
  max_by key (x ∷ xs) = max (key x) (max_by key xs)

-- The keys are n, n + 1, n + 2, ... in the order of the list.
abbrev pub Numbered {ℓ} : {A : Type ℓ} → (A → ℕ) → ℕ → List A → Type 0
Numbered key n [] = Unit
Numbered key n (x ∷ xs) = (key x ≡ n) × Numbered key (suc n) xs

module _ {ℓ} {A : Type ℓ} (key : A → ℕ) where
  Numbered-insert_by :
      (n : ℕ) (x : A) (xs : List A)
      → key x ≤ n
      → Numbered key (suc n) xs
      → insert_by key x xs ≡ x ∷ xs
  unfolding insert_by
  Numbered-insert_by n x [] le h = refl
  Numbered-insert_by n x (y ∷ xs) le h = ground arith

  -- Rows that are numbered in table order are already sorted.
  pub order_by-Numbered : (n : ℕ) (xs : List A) → Numbered key n xs → order_by key xs ≡ xs
  unfolding order_by
  order_by-Numbered n [] h = refl
  order_by-Numbered n (x ∷ xs) h =
      rw (order_by-Numbered (suc n) xs h.1) (Numbered-insert_by n x xs (omega arith) h.1)

  pub Numbered-append :
      (n : ℕ) (xs ys : List A)
      → Numbered key n xs
      → Numbered key (n + length xs) ys
      → Numbered key n (xs ++ ys)
  Numbered-append n [] ys h k = subst (λ m. Numbered key m ys) (omega arith) k
  Numbered-append n (x ∷ xs) ys h k =
      (h.0, Numbered-append (suc n) xs ys h.1 (subst (λ m. Numbered key m ys) (omega arith) k))

  -- The greatest number is the count, so one more is the next free number.
  max_by-Numbered : (n : ℕ) (xs : List A) → Numbered key (suc n) xs → max_by key xs ≤ n + length xs
  unfolding max_by
  max_by-Numbered n [] h = omega arith
  max_by-Numbered n (x ∷ xs) h = omega (arith, max_by-Numbered (suc n) xs h.1)

  max_by-Numbered_ge :
      (n : ℕ) (xs : List A) → Numbered key (suc n) xs → (xs ≡ []) ⊎ (n + length xs ≤ max_by key xs)
  unfolding max_by
  max_by-Numbered_ge n [] h = inl refl
  max_by-Numbered_ge n (x ∷ []) h = inr (omega arith)
  max_by-Numbered_ge n (x ∷ y ∷ xs) h = ground (arith, max_by-Numbered_ge (suc n) (y ∷ xs) h.1)

  pub max_by-Numbered_lem : (xs : List A) → Numbered key 1 xs → max_by key xs ≡ length xs
  unfolding max_by
  max_by-Numbered_lem xs h = ground (arith, max_by-Numbered 0 xs h, max_by-Numbered_ge 0 xs h)

  select_above_all :
      (after n : ℕ) (xs : List A)
      → after ≤ n
      → Numbered key (suc n) xs
      → select (λ x. ltb after (key x)) xs ≡ xs
  unfolding select
  select_above_all after n [] le h = refl
  select_above_all after n (x ∷ xs) le h =
      ground (arith, select_above_all after (suc n) xs (omega arith) h.1)

  -- Of numbered rows, those with a key above `n + k` are what is left after dropping `k`.
  pub select_above :
      (k n after : ℕ) (xs : List A)
      → after ≡ n + k
      → Numbered key (suc n) xs
      → select (λ x. ltb after (key x)) xs ≡ drop k xs
  unfolding select
  select_above zero n after xs e h = select_above_all after n xs (omega arith) h
  select_above (suc k) n after [] e h = refl
  select_above (suc k) n after (x ∷ xs) e h =
      ground (arith, select_above k (suc n) after xs (omega arith) h.1)

-- Every element has the property.
abbrev pub Every {ℓ} : {A : Type ℓ} → (A → Type 0) → List A → Type 0
Every P [] = Unit
Every P (x ∷ xs) = P x × Every P xs

-- Some element has the property.
abbrev pub Exists {ℓ} : {A : Type ℓ} → (A → Type 0) → List A → Type 0
Exists P [] = ⊥
Exists P (x ∷ xs) = P x ⊎ Exists P xs

module _ {ℓ} {A : Type ℓ} (P : A → Type 0) where
  pub Every-append : (xs ys : List A) → Every P xs → Every P ys → Every P (xs ++ ys)
  Every-append [] ys h k = k
  Every-append (x ∷ xs) ys h k = (h.0, Every-append xs ys h.1 k)

  pub Every-take : (n : ℕ) (xs : List A) → Every P xs → Every P (take n xs)
  Every-take zero xs h = tt
  Every-take (suc n) [] h = tt
  Every-take (suc n) (x ∷ xs) h = (h.0, Every-take n xs h.1)

  pub Every-select : (p : A → Bool) (xs : List A) → Every P xs → Every P (select p xs)
  unfolding select
  Every-select p [] h = tt
  Every-select p (x ∷ xs) h =
      select_step p x xs (h.0, Every-select p xs h.1) (Every-select p xs h.1)
    where
      select_step :
          (p : A → Bool) (x : A) (xs : List A)
          → Every P (x ∷ select p xs)
          → Every P (select p xs)
          → Every P (if p x then x ∷ select p xs else select p xs)
      select_step p x xs with_it without =
          elim (p x) as (λ b. Every P (if b then x ∷ select p xs else select p xs)) [
            | true ↦ with_it
            | false ↦ without
          ]
