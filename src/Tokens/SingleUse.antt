-- ===== src/Tokens/SingleUse.antt =====
-- Which uses of a token answer.
use mathlib.Core.Path.{◌∙◌, subst}
use baa_system.Base.{
  Exists, Bool-cases, inl, inr, true, false, is_some, ◌<◌, ℕ, ◌≡◌, ◌≢◌, refl, sym, ap, not, Option,
  none, some, List, [], ◌∷◌, map, scalar, scalar_holds, arith, ◌==◌, by_option, by_test,
}
use baa_system.Exceptions.{Result, ok, err, ok-ne-err}
use baa_system.Tokens.Service.{
  WebsocketToken, StoredValue, payload, unreadable, TokenStore, TokenWorld, is_usable, consume_row,
  consume, consume_value, consume_owned,
}

none-ne-some : {A : Type 0} {a : A} → none ≡ some a → ⊥
none-ne-some h = cc

-- No row with a consumed hash can be used.
none_usable :
    (token_hash consumed user_id conversation_id now : ℕ) (ts : List WebsocketToken)
    → scalar
        (is_usable token_hash user_id conversation_id now)
        (map (consume_row token_hash consumed) ts)
      ≡ none
unfolding scalar consume_row
none_usable token_hash consumed user_id conversation_id now [] = refl
none_usable token_hash consumed user_id conversation_id now (t ∷ ts) =
    ground (arith, none_usable token_hash consumed user_id conversation_id now ts)

-- A row for this hash, this user and this conversation, neither consumed nor expired.
pub record IsGood (token_hash user_id conversation_id now : ℕ) (row : WebsocketToken) : Type 0 where
  pub this_token : row.token_hash ≡ token_hash
  pub this_user : row.user_id ≡ user_id
  pub this_conversation : row.conversation_id ≡ conversation_id
  pub not_consumed : row.consumed_at ≡ none
  pub not_expired : now < row.expires_at

unset : (o : Option ℕ) → is_some o ≡ false → o ≡ none
unset none h = refl
unset (some n) h = absurd (ground arith)

is_usable_lem :
    (token_hash user_id conversation_id now : ℕ) (row : WebsocketToken)
    → is_usable token_hash user_id conversation_id now row ≡ true
    → IsGood token_hash user_id conversation_id now row
is_usable_lem token_hash user_id conversation_id now row h = record {
  this_token = ground arith;
  this_user = ground arith;
  this_conversation = ground arith;
  not_consumed = unset row.consumed_at (ground arith);
  not_expired = ground arith;
}

-- The row that the query finds is one of the rows.
usable_row :
    (token_hash user_id conversation_id now : ℕ) (ts : List WebsocketToken) (row : WebsocketToken)
    → scalar (is_usable token_hash user_id conversation_id now) ts ≡ some row
    → Exists (IsGood token_hash user_id conversation_id now) ts
unfolding scalar
usable_row token_hash user_id conversation_id now [] row h = absurd cc
usable_row token_hash user_id conversation_id now (t ∷ ts) row h =
    elim (Bool-cases (is_usable token_hash user_id conversation_id now t)) [
      | inl e ↦ inl (is_usable_lem token_hash user_id conversation_id now t e)
      | inr e ↦ inr (usable_row token_hash user_id conversation_id now ts row (ground arith))
    ]

module _ {S : Type 0} (store : TokenStore S) (digest : ℕ → ℕ)
    (websocket_token_ttl_seconds : ℕ) where
  -- How a use of a token ends, with the row that the query finds.
  abbrev Found : ℕ → ℕ → ℕ → List WebsocketToken → Result ℕ × TokenWorld S → Type 0
  Found now token conversation_id ts (err e, w') = w'.tokens ≡ ts
  Found now token conversation_id ts (ok user_id, w') =
      (w'.tokens ≡ map (consume_row (digest token) now) ts)
      × (row : WebsocketToken) × (scalar (is_usable (digest token) user_id conversation_id now) ts
          ≡ some row)

  usable_user :
      (token_hash user_id conversation_id now : ℕ) (ts : List WebsocketToken) (row : WebsocketToken)
      → scalar (is_usable token_hash user_id conversation_id now) ts ≡ some row
      → row.user_id ≡ user_id
  usable_user token_hash user_id conversation_id now ts row e =
      ground (arith, scalar_holds (is_usable token_hash user_id conversation_id now) ts row e)

  consume_owned-Found :
      (now token user_id conversation_id : ℕ) (w : TokenWorld S)
      → Found now token conversation_id w.tokens (
          consume_owned store digest websocket_token_ttl_seconds now token user_id conversation_id
            w)
  unfolding consume_owned
  consume_owned-Found now token user_id conversation_id w =
      by_option (Found now token conversation_id w.tokens)
        (scalar (is_usable (digest token) user_id conversation_id now) w.tokens) _ _ (λ _. refl)
        λ row e. (
          refl,
          row,
          ap (λ u. scalar (is_usable (digest token) u conversation_id now) w.tokens)
                (usable_user (digest token) user_id conversation_id now w.tokens row e)
              ∙ e,
        )

  consume_value-Found :
      (now token conversation_id : ℕ) (value : Option StoredValue) (w : TokenWorld S)
      → Found now token conversation_id w.tokens
          (consume_value store digest websocket_token_ttl_seconds now token conversation_id value w)
  unfolding consume_value
  consume_value-Found now token conversation_id none w = refl
  consume_value-Found now token conversation_id (some unreadable) w = refl
  consume_value-Found now token conversation_id (some (payload user_id stored)) w =
      by_test (Found now token conversation_id w.tokens) (not (stored == conversation_id)) _ _
        (λ _. refl) λ _. consume_owned-Found now token user_id conversation_id w

  consume-Found :
      (now token conversation_id : ℕ) (w : TokenWorld S)
      → Found now token conversation_id w.tokens
          (consume store digest websocket_token_ttl_seconds now token conversation_id w)
  unfolding consume
  consume-Found now token conversation_id w =
      let (raw, s) = store.getdel (digest token) w.redis in
      let w' : TokenWorld S = record w { redis = s } in
      by_option (Found now token conversation_id w.tokens) raw _ _ (λ _. refl)
        λ value _. consume_value-Found now token conversation_id value w'

  -- What a use of a token has done, by how it ended.
  abbrev pub Consumes : ℕ → ℕ → ℕ → List WebsocketToken → Result ℕ × TokenWorld S → Type 0
  Consumes now token conversation_id ts (err e, w') = w'.tokens ≡ ts
  Consumes now token conversation_id ts (ok user_id, w') =
      (w'.tokens ≡ map (consume_row (digest token) now) ts)
      × Exists (IsGood (digest token) user_id conversation_id now) ts

  told :
      (now token conversation_id : ℕ) (ts : List WebsocketToken) (r : Result ℕ × TokenWorld S)
      → Found now token conversation_id ts r
      → Consumes now token conversation_id ts r
  told now token conversation_id ts (err e, w') c = c
  told now token conversation_id ts (ok user_id, w') (marked, row, e) =
      (marked, usable_row (digest token) user_id conversation_id now ts row e)

  -- A use of a token raises, and then no row has changed; or it answers the user of a row for this
  -- token, this user and this conversation that is neither consumed nor expired, and has marked the
  -- token's row.
  pub consume-Consumes :
      (now token conversation_id : ℕ) (w : TokenWorld S)
      → Consumes now token conversation_id w.tokens
          (consume store digest websocket_token_ttl_seconds now token conversation_id w)
  consume-Consumes now token conversation_id w =
      told now token conversation_id w.tokens
        (consume store digest websocket_token_ttl_seconds now token conversation_id w)
        (consume-Found now token conversation_id w)

  used_up :
      (now later token conversation_id other user_id : ℕ) (ts : List WebsocketToken)
      (r : Result ℕ × TokenWorld S)
      → Found later token other (map (consume_row (digest token) now) ts) r
      → r.0 ≢ ok user_id
  used_up now later token conversation_id other user_id ts (err e, w') c h = ok-ne-err (sym h)
  used_up now later token conversation_id other user_id ts (ok user, w') (_, row, e) h =
      none-ne-some (sym (none_usable (digest token) now user other later ts) ∙ e)

  first_use :
      (now token conversation_id user_id : ℕ) (ts : List WebsocketToken)
      (r : Result ℕ × TokenWorld S)
      → Found now token conversation_id ts r
      → r.0 ≡ ok user_id
      → r.1.tokens ≡ map (consume_row (digest token) now) ts
  first_use now token conversation_id user_id ts (err e, w') c h = absurd (ok-ne-err (sym h))
  first_use now token conversation_id user_id ts (ok user, w') c h = c.0

  -- A token is used at most once: after a use that answered, no other use of it answers, at whatever
  -- time, for whatever conversation, and whatever the Redis server then holds.
  pub consume_once :
      (now token conversation_id user_id : ℕ) (w : TokenWorld S)
      → (consume store digest websocket_token_ttl_seconds now token conversation_id w).0
        ≡ ok user_id
      → (later other another_user : ℕ) (s : S)
      → (consume store digest websocket_token_ttl_seconds later token other
          (record (consume store digest websocket_token_ttl_seconds now token conversation_id w).1 {
            redis = s;
          })).0
        ≢ ok another_user
  consume_once now token conversation_id user_id w h later other another_user s =
      let first = consume store digest websocket_token_ttl_seconds now token conversation_id w in
      let w' : TokenWorld S = record first.1 { redis = s } in
      let marked =
        first_use now token conversation_id user_id w.tokens first
          (consume-Found now token conversation_id w) h in
      used_up now later token conversation_id other another_user w.tokens
        (consume store digest websocket_token_ttl_seconds later token other w')
        (subst
          (λ ts.
            Found later token other ts
              (consume store digest websocket_token_ttl_seconds later token other w'))
          marked (consume-Found later token other w'))
