-- ===== src/Tokens/Service.antt =====
-- The issue and the use of a token. Tokens and hashes are numbers, and the digest is a parameter.
-- Of the Redis server the service asks for two more commands, whose values are payloads.
use baa_system.Base.{
  ℕ, ◌+◌, Bool, not, ◌&&◌, Option, none, some, List, [], ◌∷◌, ◌++◌, map, scalar, is_some, ltb, ◌==◌,
  if◌then◌else◌,
}
use baa_system.Models.{Database}
use baa_system.Exceptions.{
  ok, err, Action, app_error, conversation_missing, dependency_unavailable, unauthorized, forbidden,
}
use baa_system.Redis.{Command}
use baa_system.Conversations.Queries.{get_owned}

pub record WebsocketToken : Type 0 where
  pub user_id : ℕ
  pub conversation_id : ℕ
  pub token_hash : ℕ
  pub expires_at : ℕ
  pub consumed_at : Option ℕ

-- What stands under a key: a payload, or text that does not parse.
pub data StoredValue : Type 0 where
  -- user_id, conversation_id
  payload : ℕ → ℕ → StoredValue
  unreadable : StoredValue

pub record TokenStore (S : Type 0) : Type 0 where
  -- SETEX with the time to live
  pub setex : ℕ → ℕ → StoredValue → Command S (Unit {0})
  -- GETDEL: `none` inside when there is no such key
  pub getdel : ℕ → Command S (Option StoredValue)

pub record TokenWorld (S : Type 0) : Type 0 where
  pub tokens : List WebsocketToken
  pub redis : S

pub record WebsocketTokenResponse : Type 0 where
  pub websocket_token : ℕ
  pub expires_in : ℕ

-- The conditions of the query for the row.
abbrev pub is_usable : ℕ → ℕ → ℕ → ℕ → WebsocketToken → Bool
is_usable token_hash user_id conversation_id now t =
    t.token_hash == token_hash
    && t.user_id == user_id
    && t.conversation_id == conversation_id
    && not (is_some t.consumed_at)
    && ltb now t.expires_at

-- `record.consumed_at = now`: the row is known by its hash, which is unique.
unfoldable pub consume_row : ℕ → ℕ → WebsocketToken → WebsocketToken
consume_row token_hash now t =
    if t.token_hash == token_hash then record t { consumed_at = some now } else t

module _ {S : Type 0} (store : TokenStore S) (digest : ℕ → ℕ)
    (websocket_token_ttl_seconds : ℕ) where
  -- `token` is what `secrets.token_urlsafe` gives.
  unfoldable pub issue : Database → ℕ → ℕ → ℕ → ℕ → Action (TokenWorld S) WebsocketTokenResponse
  issue db now token user_id conversation_id w = elim (get_owned db conversation_id user_id) [
    | none ↦ (err conversation_missing, w)
    | some conversation ↦
        let row : WebsocketToken = record {
          user_id = user_id;
          conversation_id = conversation_id;
          token_hash = digest token;
          expires_at = now + websocket_token_ttl_seconds;
          consumed_at = none;
        } in
        let (stored, s) =
          store.setex (digest token) websocket_token_ttl_seconds (payload user_id conversation_id)
            w.redis in
        let w' : TokenWorld S = record { tokens = w.tokens ++ (row ∷ []); redis = s } in
        elim stored [
          | none ↦ (err (app_error dependency_unavailable "实时通信鉴权服务暂不可用" 503), w')
          | some _ ↦ (
            ok (record { websocket_token = token; expires_in = websocket_token_ttl_seconds }),
            w',
          )
        ]
  ]

  -- With the payload's user, after the conversation has been compared.
  unfoldable pub consume_owned : ℕ → ℕ → ℕ → ℕ → Action (TokenWorld S) ℕ
  consume_owned now token user_id conversation_id w =
      elim (scalar (is_usable (digest token) user_id conversation_id now) w.tokens) [
        | none ↦ (err (app_error unauthorized "WebSocket Token 无效" 401), w)
        | some row ↦
            (ok row.user_id, record w { tokens = map (consume_row (digest token) now) w.tokens })
      ]

  unfoldable pub consume_value : ℕ → ℕ → ℕ → Option StoredValue → Action (TokenWorld S) ℕ
  unfolding consume_owned
  consume_value now token conversation_id none w =
      (err (app_error unauthorized "WebSocket Token 无效、已过期或已使用" 401), w)
  consume_value now token conversation_id (some unreadable) w =
      (err (app_error unauthorized "WebSocket Token 无效" 401), w)
  consume_value now token conversation_id (some (payload user_id stored_conversation)) w =
      if not (stored_conversation == conversation_id)
      then (err (app_error forbidden "WebSocket Token 与会话不匹配" 403), w)
      else consume_owned now token user_id conversation_id w

  unfoldable pub consume : ℕ → ℕ → ℕ → Action (TokenWorld S) ℕ
  unfolding consume_value
  consume now token conversation_id w =
      let (raw, s) = store.getdel (digest token) w.redis in
      let w' : TokenWorld S = record w { redis = s } in
      elim raw [
        | none ↦ (err (app_error dependency_unavailable "实时通信鉴权服务暂不可用" 503), w')
        | some value ↦ consume_value now token conversation_id value w'
      ]
