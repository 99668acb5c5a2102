-- ===== src/Server/Confirm.antt =====
-- One-time tokens in the server: `requestEmailVerification`, `confirmEmailVerification`,
-- `requestPasswordReset` and `confirmPasswordReset` (apps/idp-server/src/modules/auth/auth.service.ts)
-- with the queries of the verification and user repositories.
use id_provider.Base.{
  ℕ, ◌+◌, ◌*◌, ◌==◌, String, str_eq, Option, none, some, find, update, if◌then◌else◌,
}
use id_provider.Store.{
  Database, User, UserEmail, OneTimeToken, Action, api, draw, gets, modify, pure, or_raise,
  insert_reset_token, insert_verification_token, ◌>>=◌, ◌>>◌,
}
use id_provider.Store.Env.{Env}
use id_provider.Auth.Event.{opaque_token, hash_token}
use id_provider.Auth.Password.{is_usable, consume, set_password}
use id_provider.Auth.Email.{verify}

abbrev pub joined_user : Database → Option UserEmail → Option User
joined_user d none = none
joined_user d (some m) = find (λ u. u.id == m.user_id) d.users

-- `findByEmail`, and `findById` for what is read of it
unfoldable pub find_by_email : String → Database → Option User
find_by_email email d = joined_user d (find (λ m. str_eq m.email email) d.emails)

abbrev pub find_by_id : ℕ → Database → Option User
find_by_id user_id d = find (λ u. u.id == user_id) d.users

-- `!user || user.status !== "active"`
abbrev pub active_user : Option User → Option User
active_user none = none
active_user (some u) = if str_eq u.status "active" then some u else none

abbrev pub new_token : Env → ℕ → String → ℕ → OneTimeToken
new_token e user_id token id = record {
  id = e.random_uuid id;
  user_id = user_id;
  token_hash = hash_token e token;
  expires_at = e.now + 60 * 60 * 1000;
  consumed_at = none;
  created_at = e.now;
}

-- the branch of an active account
unfoldable pub issue_reset_token : Env → Option User → Action (Option String)
unfolding insert_reset_token
issue_reset_token e none = pure none
issue_reset_token e (some u) = do
  t ← draw
  id ← draw
  insert_reset_token (new_token e u.id (opaque_token e "pr" t) id)
  pure (some (opaque_token e "pr" t))

unfoldable pub request_password_reset : Env → String → Action (Option String)
unfolding issue_reset_token find_by_email
request_password_reset e email = do
  account ← gets (find_by_email email)
  issue_reset_token e (active_user account)

unfoldable pub issue_email_token : Env → Option User → Action (Option String)
unfolding insert_verification_token
issue_email_token e none = pure none
issue_email_token e (some u) = do
  t ← draw
  id ← draw
  insert_verification_token (new_token e u.id (opaque_token e "ev" t) id)
  pure (some (opaque_token e "ev" t))

unfoldable pub request_email_verification : Env → String → Action (Option String)
unfolding issue_email_token find_by_email
request_email_verification e email = do
  account ← gets (find_by_email email)
  issue_email_token e (active_user account)

-- `consumeValidPasswordTokenByHash`: the update, and the first row that it returns
unfoldable pub consume_reset_token : Env → String → Action (Option OneTimeToken)
consume_reset_token e hash = do
  t ← gets (λ d. find (is_usable e.now hash) d.reset_tokens)
  modify (λ d. record d {
    reset_tokens = update (is_usable e.now hash) (consume e.now) d.reset_tokens;
  })
  pure t

unfoldable pub consume_email_token : Env → String → Action (Option OneTimeToken)
consume_email_token e hash = do
  t ← gets (λ d. find (is_usable e.now hash) d.verification_tokens)
  modify (λ d. record d {
    verification_tokens = update (is_usable e.now hash) (consume e.now) d.verification_tokens;
  })
  pure t

unfoldable pub confirm_password_reset : Env → String → String → Action (Unit {0})
unfolding consume_reset_token set_password
confirm_password_reset e token new_password = do
  consumed ← consume_reset_token e (hash_token e token)
  t ← or_raise consumed (api 400 "invalid_token")
  user ← gets (find_by_id t.user_id)
  active ← or_raise (active_user user) (api 401 "unauthorized")
  salt ← draw
  set_password e t.user_id (e.argon2_hash salt new_password)

-- every address of the user is marked
unfoldable pub confirm_email_verification : Env → String → Action (Unit {0})
unfolding consume_email_token
confirm_email_verification e token = do
  consumed ← consume_email_token e (hash_token e token)
  t ← or_raise consumed (api 400 "invalid_token")
  user ← gets (find_by_id t.user_id)
  active ← or_raise (active_user user) (api 401 "unauthorized")
  modify (λ d. record d { emails = update (λ m. m.user_id == t.user_id) verify d.emails })
