-- ===== src/Scenarios/Tokens.antt =====
-- The theorems on WebSocket tokens, applied to one token.
use baa_system.Base.{ℕ, ◌+◌, ◌≡◌, ◌≢◌, refl, Option, none, some, [], ◌∷◌, scalar}
use baa_system.Exceptions.{ok}
use baa_system.Conversations.Queries.{get_owned}
use baa_system.Tokens.Service.{StoredValue, payload, TokenStore, TokenWorld, issue, consume}
use baa_system.Tokens.SingleUse.{Consumes, consume-Consumes, consume_once}
use baa_system.Scenarios.World.{empty_db}

-- A store with one key.
abbrev one_key : TokenStore (Option StoredValue)
one_key = record {
  setex = λ key ttl value s. (some tt, some value);
  getdel = λ key s. (some s, none);
}

abbrev digest : ℕ → ℕ
digest token = token + 100

-- Token 5 of user 7 for conversation 1, issued at time 10 for a minute.
abbrev issued : TokenWorld (Option StoredValue)
issued = record {
  tokens =
      record {
        user_id = 7;
        conversation_id = 1;
        token_hash = 105;
        expires_at = 70;
        consumed_at = none;
      }
      ∷ [];
  redis = some (payload 7 1);
}

issue_test :
    (issue one_key digest 60 empty_db 10 5 7 1 (record { tokens = []; redis = none })).1 ≡ issued
unfolding issue get_owned scalar
issue_test = refl

used : (consume one_key digest 60 20 5 1 issued).0 ≡ ok 7
unfolding consume scalar
used = refl

consume-Consumes_example :
    Consumes one_key digest 60 20 5 1 issued.tokens (consume one_key digest 60 20 5 1 issued)
consume-Consumes_example = consume-Consumes one_key digest 60 20 5 1 issued

consume_once_example :
    (consume one_key digest 60 30 5 1
      (record (consume one_key digest 60 20 5 1 issued).1 { redis = some (payload 7 1) })).0
    ≢ ok 7
consume_once_example =
    consume_once one_key digest 60 20 5 1 7 issued used 30 1 7 (some (payload 7 1))
