-- ===== src/Auth/Session.antt =====
-- Sessions: `createSession`, `authenticateAccessToken`, `refresh` and `introspectToken`
-- (packages/auth-core/src/auth-service.ts).
use id_provider.Base.{
  ℕ, ◌+◌, ◌*◌, ◌/◌, ◌==◌, ltb, Bool, true, false, not, ◌&&◌, ◌||◌, String, str_eq, Option, none,
  some, find, update, any, is_none, if◌then◌else◌,
}
use id_provider.Base.Json.{str, field, end}
use id_provider.Store.{
  Database, UserSession, Action, api, draw, modify, gets, pure, raise, constrained, or_raise,
  transaction, insert_session, ◌>>=◌, ◌>>◌,
}
use id_provider.Store.Env.{Env}
use id_provider.Access.Permission.{no_context}
use id_provider.Access.Entitlement.{Snapshot, authorization_snapshot}
use id_provider.Auth.Event.{opaque_token, hash_token, write_security_event}

pub record TokenBundle : Type 0 where
  pub access_token : String
  pub refresh_token : String
  pub access_expires_at : String
  pub refresh_expires_at : String
  pub token_claims : Snapshot

abbrev pub access_expiry : Env → ℕ
access_expiry e = e.now + e.access_token_ttl_seconds * 1000

abbrev pub refresh_expiry : Env → ℕ
refresh_expiry e = e.now + e.refresh_token_ttl_seconds * 1000

-- the row of a new session, from the numbers of its random values
abbrev pub new_session : Env → ℕ → Option String → Option String → ℕ → ℕ → ℕ → UserSession
new_session e user_id ip_address user_agent at rt id = record {
  id = e.random_uuid id;
  user_id = user_id;
  access_token_hash = hash_token e (opaque_token e "at" at);
  refresh_token_hash = hash_token e (opaque_token e "rt" rt);
  ip_address = ip_address;
  user_agent = user_agent;
  expires_at = access_expiry e;
  refresh_expires_at = refresh_expiry e;
  revoked_at = none;
  last_seen_at = e.now;
  created_at = e.now;
}

abbrev pub bundle : Env → ℕ → ℕ → ℕ → Database → TokenBundle
bundle e user_id at rt d = record {
  access_token = opaque_token e "at" at;
  refresh_token = opaque_token e "rt" rt;
  access_expires_at = e.iso_text (access_expiry e);
  refresh_expires_at = e.iso_text (refresh_expiry e);
  token_claims = authorization_snapshot d e.now user_id no_context;
}

unfoldable pub create_session : Env → ℕ → Option String → Option String → Action TokenBundle
unfolding insert_session
create_session e user_id ip_address user_agent = do
  at ← draw
  rt ← draw
  id ← draw
  insert_session (new_session e user_id ip_address user_agent at rt id)
  gets (bundle e user_id at rt)

-- the condition of the query in `authenticateAccessToken`
abbrev pub accepts : ℕ → String → UserSession → Bool
accepts now hash s =
    str_eq s.access_token_hash hash && (is_none s.revoked_at && ltb now s.expires_at)

pub record Principal : Type 0 where
  pub user_id : ℕ
  pub session_id : ℕ

abbrev pub touch : ℕ → UserSession → UserSession
touch now r = record r { last_seen_at = now }

unfoldable pub authenticate : Env → String → Action Principal
authenticate e access_token = do
  let hash = hash_token e access_token
  s ← or_raise (← gets (λ d. find (accepts e.now hash) d.sessions)) (api 401 "unauthorized")
  modify (λ d. record d { sessions = update (λ r. r.id == s.id) (touch e.now) d.sessions })
  pure (record { user_id = s.user_id; session_id = s.id })

-- the condition of the query in `refresh`
abbrev pub refreshes : ℕ → String → UserSession → Bool
refreshes now hash s =
    str_eq s.refresh_token_hash hash && (is_none s.revoked_at && ltb now s.refresh_expires_at)

-- the row that an update by `refresh` hits
abbrev pub is_rotated : ℕ → String → UserSession → Bool
is_rotated id hash r = r.id == id && str_eq r.refresh_token_hash hash

-- the columns that `refresh` writes
abbrev pub rotate : Env → String → String → UserSession → UserSession
rotate e access_hash refresh_hash r = record r {
  access_token_hash = access_hash;
  refresh_token_hash = refresh_hash;
  expires_at = access_expiry e;
  refresh_expires_at = refresh_expiry e;
  last_seen_at = e.now;
}

-- a row is hit, and one that is not has a hash that the update writes
abbrev pub rotation_clash : ℕ → String → String → String → Database → Bool
rotation_clash id hash access_hash refresh_hash d =
    any (is_rotated id hash) d.sessions
    && any
        (λ r.
          not (is_rotated id hash r)
          && (str_eq r.access_token_hash access_hash || str_eq r.refresh_token_hash refresh_hash))
        d.sessions

-- the update of `refresh`; whether it hit a row
unfoldable pub write_rotation : Env → ℕ → String → String → String → Action Bool
write_rotation e id hash access_hash refresh_hash = do
  hit ← gets (λ d. any (is_rotated id hash) d.sessions)
  constrained (rotation_clash id hash access_hash refresh_hash) (λ d. false)
      (λ d. record d {
        sessions = update (is_rotated id hash) (rotate e access_hash refresh_hash) d.sessions;
      })
  pure hit

abbrev pub revoke : ℕ → UserSession → UserSession
revoke now r = record r { revoked_at = some now }

pub record Refreshed : Type 0 where
  pub user_id : ℕ
  pub tokens : TokenBundle

-- the branch of a refresh token that no live session has
unfoldable pub refuse_unknown : Env → String → Action UserSession
unfolding write_security_event
refuse_unknown e hash = do
  write_security_event e "refresh_token.reuse_detected" none
      (field "refreshTokenHash" (str hash) end)
  raise (api 401 "invalid_refresh_token")

-- `if (updated.length === 0)`: another request has rotated the token since the query
unfoldable pub refuse_reused : Env → UserSession → Bool → Action (Unit {0})
unfolding write_security_event
refuse_reused e s true = pure tt
refuse_reused e s false = do
  modify (λ d. record d { sessions = update (λ r. r.id == s.id) (revoke e.now) d.sessions })
  write_security_event e "refresh_token.reuse_detected" (some s.user_id)
      (field "sessionId" (str (e.uuid_text s.id)) end)
  raise (api 401 "invalid_refresh_token")

-- the handler that `refresh` runs in a transaction, below the query for the session
unfoldable pub rotate_session : Env → String → UserSession → Action Refreshed
unfolding refuse_reused write_rotation
rotate_session e hash s = do
  at ← draw
  rt ← draw
  hit ←
      write_rotation e s.id hash (hash_token e (opaque_token e "at" at))
        (hash_token e (opaque_token e "rt" rt))
  refuse_reused e s hit
  tokens ← gets (bundle e s.user_id at rt)
  pure (record { user_id = s.user_id; tokens = tokens })

unfoldable pub found_or_refuse : Env → String → Option UserSession → Action UserSession
unfolding refuse_unknown
found_or_refuse e hash none = refuse_unknown e hash
found_or_refuse e hash (some s) = pure s

unfoldable pub refresh_body : Env → String → Action Refreshed
unfolding found_or_refuse rotate_session
refresh_body e hash = do
  s ← found_or_refuse e hash (← gets (λ d. find (refreshes e.now hash) d.sessions))
  rotate_session e hash s

unfoldable pub refresh : Env → String → Action Refreshed
unfolding transaction refresh_body
refresh e refresh_token = transaction (refresh_body e (hash_token e refresh_token))

pub data Introspection : Type 0 where
  inactive : Introspection
  active : ℕ → ℕ → ℕ → Snapshot → Introspection

-- `row.revokedAt === null && row.expiresAt > new Date()`
abbrev pub is_live : ℕ → UserSession → Bool
is_live now s = is_none s.revoked_at && ltb now s.expires_at

-- the subject, the session, the expiry in seconds and the claims of a token in force
unfoldable pub introspect : Env → String → Database → Introspection
introspect e token d =
    elim (find (λ s. str_eq s.access_token_hash (hash_token e token)) d.sessions) [
      | none ↦ inactive
      | some s ↦
          if is_live e.now s
          then active s.user_id s.id (s.expires_at / 1000)
              (authorization_snapshot d e.now s.user_id no_context)
          else inactive
    ]
