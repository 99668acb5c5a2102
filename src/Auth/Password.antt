-- ===== src/Auth/Password.antt =====
-- Passwords: `verifyCurrentPassword`, `changePassword`, `requestPasswordReset` and
-- `confirmPasswordReset` (packages/auth-core/src/auth-service.ts).
use id_provider.Base.{
  ℕ, ◌+◌, ◌*◌, ◌==◌, ltb, Bool, not, ◌&&◌, String, str_eq, Option, none, some, find, update,
  is_none,
}
use id_provider.Base.Json.{str, field, end}
use id_provider.Store.{
  UserEmail, UserPassword, OneTimeToken, Action, api, draw, modify, gets, pure, raise_if, or_raise,
  transaction, insert_reset_token, ◌>>=◌, ◌>>◌,
}
use id_provider.Store.Env.{Env}
use id_provider.Audit.Log.{write_audit_log}
use id_provider.Auth.Event.{opaque_token, hash_token, write_security_event}
use id_provider.Auth.Revoke.{revoke_where, is_open}

unfoldable pub verify_current_password : Env → ℕ → String → Action (Unit {0})
verify_current_password e user_id password = do
  row ←
      or_raise (← gets (λ d. find (λ p. p.user_id == user_id) d.passwords))
        (api 404 "user_password_not_found")
  raise_if (not (e.argon2_verify row.password_hash password)) (api 401 "invalid_credentials")

abbrev pub with_hash : ℕ → String → UserPassword → UserPassword
with_hash now hash p = record p { password_hash = hash; updated_at = now }

-- `update(userPasswords).set({ passwordHash, updatedAt }).where(userId)`
unfoldable pub set_password : Env → ℕ → String → Action (Unit {0})
set_password e user_id hash = modify (λ d. record d {
  passwords = update (λ p. p.user_id == user_id) (with_hash e.now hash) d.passwords;
})

unfoldable pub change_password : Env → ℕ → String → String → Action (Unit {0})
unfolding verify_current_password set_password write_security_event write_audit_log
change_password e user_id current_password new_password = do
  verify_current_password e user_id current_password
  salt ← draw
  set_password e user_id (e.argon2_hash salt new_password)
  revoke_where e (is_open user_id)
  write_security_event e "password.changed" (some user_id) end
  write_audit_log e (record {
    actor_user_id = some user_id;
    action = "password.change";
    resource_type = "user";
    resource_id = some (e.uuid_text user_id);
    payload = end;
  })

-- the condition of a query for a token that can still be used
abbrev pub is_usable : ℕ → String → OneTimeToken → Bool
is_usable now hash t = str_eq t.token_hash hash && (is_none t.consumed_at && ltb now t.expires_at)

abbrev pub consume : ℕ → OneTimeToken → OneTimeToken
consume now t = record t { consumed_at = some now }

-- the branch of a known address
unfoldable pub issue_reset : Env → Option UserEmail → Action (Option String)
unfolding insert_reset_token write_security_event
issue_reset e none = pure none
issue_reset e (some target) = do
  t ← draw
  let token = opaque_token e "pr" t
  id ← draw
  insert_reset_token (record {
    id = e.random_uuid id;
    user_id = target.user_id;
    token_hash = hash_token e token;
    expires_at = e.now + 30 * 60_000;
    consumed_at = none;
    created_at = e.now;
  })
  write_security_event e "password.reset.requested" (some target.user_id) end
  pure (some token)

-- `{ accepted: true }`, with the token if one was made
unfoldable pub request_password_reset : Env → String → Action (Option String)
unfolding issue_reset
request_password_reset e email = do
  account ← gets (λ d. find (λ m. str_eq m.email email) d.emails)
  issue_reset e account

-- the handler that `confirmPasswordReset` runs in a transaction
unfoldable pub confirm_reset_body : Env → String → String → Action (Unit {0})
unfolding set_password write_security_event
confirm_reset_body e hash new_password = do
  token ←
      or_raise (← gets (λ d. find (is_usable e.now hash) d.reset_tokens))
        (api 400 "invalid_reset_token")
  salt ← draw
  set_password e token.user_id (e.argon2_hash salt new_password)
  revoke_where e (is_open token.user_id)
  modify (λ d. record d {
    reset_tokens = update (λ t. t.id == token.id) (consume e.now) d.reset_tokens;
  })
  write_security_event e "password.changed" (some token.user_id)
      (field "reason" (str "password_reset") end)

unfoldable pub confirm_password_reset : Env → String → String → Action (Unit {0})
unfolding transaction confirm_reset_body
confirm_password_reset e reset_token new_password =
    transaction (confirm_reset_body e (hash_token e reset_token) new_password)
