-- ===== src/Auth/Email.antt =====
-- Email addresses: `getUserByEmail`, `requestEmailVerification` and `confirmEmailVerification`
-- (packages/auth-core/src/auth-service.ts).
use id_provider.Base.{
  ℕ, ◌+◌, ◌==◌, Bool, true, ◌&&◌, String, str_eq, Option, none, some, find, update, if◌then◌else◌,
}
use id_provider.Base.Json.{end}
use id_provider.Store.{
  Database, UserEmail, Action, api, draw, modify, gets, pure, or_raise, transaction,
  insert_verification_token, has_user, ◌>>=◌, ◌>>◌,
}
use id_provider.Store.Env.{Env}
use id_provider.Auth.Event.{opaque_token, hash_token, write_security_event}
use id_provider.Auth.Login.{day_ms}
use id_provider.Auth.Password.{is_usable, consume}

unfoldable pub get_user_by_email : String → Database → Option ℕ
get_user_by_email email d = elim (find (λ m. str_eq m.email email) d.emails) [
  | none ↦ none
  | some m ↦ if has_user m.user_id d then some m.user_id else none
]

-- the branch of an address that waits for verification
unfoldable pub issue_verification : Env → Option UserEmail → Action (Option String)
unfolding insert_verification_token write_security_event
issue_verification e none = pure none
issue_verification e (some target) = if target.is_verified then pure none else do
  t ← draw
  let token = opaque_token e "ev" t
  id ← draw
  insert_verification_token (record {
    id = e.random_uuid id;
    user_id = target.user_id;
    token_hash = hash_token e token;
    expires_at = e.now + day_ms;
    consumed_at = none;
    created_at = e.now;
  })
  write_security_event e "email.verification.requested" (some target.user_id) end
  pure (some token)

-- `{ accepted: true }`, with the token if one was made
unfoldable pub request_email_verification : Env → String → Action (Option String)
unfolding issue_verification
request_email_verification e email = do
  account ← gets (λ d. find (λ m. str_eq m.email email && m.is_primary) d.emails)
  issue_verification e account

abbrev pub is_primary_of : ℕ → UserEmail → Bool
is_primary_of user_id m = m.user_id == user_id && m.is_primary

abbrev pub verify : UserEmail → UserEmail
verify m = record m { is_verified = true }

-- the handler that `confirmEmailVerification` runs in a transaction
unfoldable pub confirm_email_body : Env → String → Action (Unit {0})
unfolding write_security_event
confirm_email_body e hash = do
  row ←
      or_raise (← gets (λ d. find (is_usable e.now hash) d.verification_tokens))
        (api 400 "invalid_verification_token")
  modify (λ d. record d { emails = update (is_primary_of row.user_id) verify d.emails })
  modify (λ d. record d {
    verification_tokens = update (λ t. t.id == row.id) (consume e.now) d.verification_tokens;
  })
  write_security_event e "email.verified" (some row.user_id) end

unfoldable pub confirm_email_verification : Env → String → Action (Unit {0})
unfolding transaction confirm_email_body
confirm_email_verification e token = transaction (confirm_email_body e (hash_token e token))
