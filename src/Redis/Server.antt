-- ===== src/Redis/Server.antt =====
-- What Redis documents of the commands that are sent to it, on a view of the server's keys. Of a
-- command that raises `RedisError` nothing is known. Expiry of keys is not part of a command.
use mathlib.Core.Path.{◌∙◌, ap}
use baa_system.Base.{
  ℕ, ◌-◌, ◌≡◌, Bool, true, false, Option, none, some, List, [], ◌∷◌, ◌++◌, length, is_empty, zero,
  suc, remove_all, remove_first, ◌==◌, if◌then◌else◌,
}
use baa_system.Redis.Commands.{
  Key, enqueued, task_cancel, ListKey, ready, processing, Command, RedisClient, ◌>>=◌, ◌>>◌, raise,
  on_error,
}

-- The two lists, from their left end, and the keys that are set.
pub record View : Type 0 where
  pub ready_list : List ℕ
  pub processing_list : List ℕ
  pub marked : Key → Bool

abbrev pub key_eq : Key → Key → Bool
key_eq (enqueued a) (enqueued b) = a == b
key_eq (task_cancel a) (task_cancel b) = a == b
key_eq _ _ = false

abbrev pub items : ListKey → View → List ℕ
items ready v = v.ready_list
items processing v = v.processing_list

abbrev pub with_items : ListKey → List ℕ → View → View
with_items ready xs v = record v { ready_list = xs }
with_items processing xs v = record v { processing_list = xs }

abbrev pub mark : Key → Bool → View → View
mark key b v = record v { marked = λ k. if key_eq key k then b else v.marked k }

-- Without its last element, and that element.
unfoldable pub pop_right : List ℕ → Option (List ℕ × ℕ)
pop_right [] = none
pop_right (x ∷ xs) = elim (pop_right xs) [
  | none ↦ some ([], x)
  | some (rest, last) ↦ some (x ∷ rest, last)
]

-- LREM with a count of 0 removes all, and with another the first so many; it answers how many.
abbrev pub remove_times : ℕ → ℕ → List ℕ → List ℕ
remove_times zero a xs = xs
remove_times (suc n) a xs = remove_times n a (remove_first a xs)

abbrev pub removal : ℕ → ℕ → List ℕ → List ℕ
removal zero a xs = remove_all a xs
removal (suc n) a xs = remove_times n a (remove_first a xs)

abbrev pub move_right : Option (List ℕ × ℕ) → ListKey → ListKey → View → Option ℕ × View
move_right none source target v = (none, v)
move_right (some (rest, last)) source target v =
    let v' = with_items source rest v in (some last, with_items target (last ∷ items target v') v')

-- The commands on views.
abbrev pub set_nx_view : Key → View → Bool × View
set_nx_view key v = if v.marked key then (false, v) else (true, mark key true v)

abbrev pub delete_view : Key → View → Unit {0} × View
delete_view key v = (tt, mark key false v)

abbrev pub lrem_view : ListKey → ℕ → ℕ → View → ℕ × View
lrem_view list count a v =
    let left = removal count a (items list v) in
    (length (items list v) - length left, with_items list left v)

abbrev pub lpush_view : ListKey → ℕ → View → Unit {0} × View
lpush_view list a v = (tt, with_items list (a ∷ items list v) v)

abbrev pub rpush_view : ListKey → ℕ → View → Unit {0} × View
rpush_view list a v = (tt, with_items list (items list v ++ (a ∷ [])) v)

abbrev pub brpoplpush_view : ListKey → ListKey → View → Option ℕ × View
brpoplpush_view source target v = move_right (pop_right (items source v)) source target v

-- A command that answered did what the function on views says.
abbrev pub Follows : {A : Type 0} → View → (View → A × View) → Option A × View → Type 0
Follows v f (none, v') = Unit
Follows v f (some a, v') = f v ≡ (a, v')

-- Only the value of the function on views counts.
pub Follows-eq :
    {A : Type 0} (v u : View) (f g : View → A × View) (r : Option A × View)
    → f v ≡ g u
    → Follows u g r
    → Follows v f r
Follows-eq v u f g (none, w) e h = tt
Follows-eq v u f g (some a, w) e h = e ∙ h

module _ {S : Type 0} (view : S → View) where
  -- An answer with the view of the state after it.
  abbrev pub seen : {A : Type 0} → Option A × S → Option A × View
  seen (a, s) = (a, view s)

  pub record IsServer (redis : RedisClient S) : Type 0 where
    pub set_nx_law :
        (key : Key) (ttl : ℕ) (s : S)
        → Follows (view s) (set_nx_view key) (seen (redis.set_nx key ttl s))
    pub delete_law :
        (key : Key) (s : S) → Follows (view s) (delete_view key) (seen (redis.delete key s))
    pub lrem_law :
        (list : ListKey) (count a : ℕ) (s : S)
        → Follows (view s) (lrem_view list count a) (seen (redis.lrem list count a s))
    pub lpush_law :
        (list : ListKey) (a : ℕ) (s : S)
        → Follows (view s) (lpush_view list a) (seen (redis.lpush list a s))
    pub rpush_law :
        (list : ListKey) (a : ℕ) (s : S)
        → Follows (view s) (rpush_view list a) (seen (redis.rpush list a s))
    -- On an empty list the command blocks, and other clients go on: it acts on what they have made
    -- of the keys, when one has pushed something, or when the time is over.
    pub brpoplpush_law :
        (source target : ListKey) (timeout : ℕ) (s : S)
        → (v : View) × (is_empty (items source (view s)) ≡ false → v ≡ view s)
          × Follows v
              (brpoplpush_view source target)
              (seen (redis.brpoplpush source target timeout s))

  answered :
      {A B : Type 0} (k : A → Command S B) (f : View → A × View) (g : A → View → B × View)
      (v : View) (a : Option A) (s' : S)
      → Follows v f (a, view s')
      → ((x : A) (s'' : S) → Follows (view s'') (g x) (seen (k x s'')))
      → Follows v
          (λ u. let (x, u') = f u in g x u')
          (seen (elim a [ none ↦ (none, s') | some x ↦ k x s' ]))
  answered k f g v none s' h hk = tt
  answered k f g v (some x) s' h hk =
      Follows-eq v (view s') (λ u. let (x, u') = f u in g x u') (g x) (seen (k x s'))
        (ap (λ (r : _ × View). g r.0 r.1) h) (hk x s')

  -- Commands in sequence.
  pub Follows-bind :
      {A B : Type 0} (m : Command S A) (k : A → Command S B) (f : View → A × View)
      (g : A → View → B × View) (s : S)
      → Follows (view s) f (seen (m s))
      → ((a : A) (s' : S) → Follows (view s') (g a) (seen (k a s')))
      → Follows (view s) (λ v. let (a, v') = f v in g a v') (seen ((m >>= k) s))
  Follows-bind m k f g s h hk = answered k f g (view s) (m s).0 (m s).1 h hk

  raised :
      {A B : Type 0} (f : View → A × View) (v : View) (b : Option B) (s : S)
      → Follows v f (seen (elim b [ none ↦ (none, s) | some x ↦ raise s ]))
  raised f v none s = tt
  raised f v (some x) s = tt

  caught :
      {A B : Type 0} (handler : Command S B) (f : View → A × View) (v : View) (a : Option A) (s : S)
      → Follows v f (a, view s)
      → Follows v f (seen (elim a [ none ↦ (handler >> raise) s | some x ↦ (some x, s) ]))
  caught handler f v none s h = raised f v (handler s).0 (handler s).1
  caught handler f v (some x) s h = h

  -- An error handler that raises again changes nothing of what an answer says.
  pub Follows-on_error :
      {A B : Type 0} (m : Command S A) (handler : Command S B) (f : View → A × View) (s : S)
      → Follows (view s) f (seen (m s))
      → Follows (view s) f (seen (on_error m (handler >> raise) s))
  Follows-on_error m handler f s h = caught handler f (view s) (m s).0 (m s).1 h
