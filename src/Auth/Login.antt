-- ===== src/Auth/Login.antt =====
-- `signup` and `login` (packages/auth-core/src/auth-service.ts).
use id_provider.Base.{
  ℕ, ◌+◌, ◌*◌, ◌==◌, Bool, true, false, not, String, str_eq, Option, none, some, List, [], ◌∷◌,
  find, if◌then◌else◌,
}
use id_provider.Base.Json.{Json, null, bool, str, field, end}
use id_provider.Store.{
  Database, UserEmail, UserPassword, MfaFactor, Action, Failure, api, unique_violation, Result, ok,
  err, World, draw, gets, pure, raise, transaction, insert_user, insert_email, insert_password,
  insert_verification_token, insert_attempt, has_user, ◌>>=◌, ◌>>◌,
}
use id_provider.Store.Env.{Env}
use id_provider.Audit.Log.{write_audit_log}
use id_provider.Auth.Event.{opaque_token, hash_token, write_security_event}
use id_provider.Auth.Session.{TokenBundle, create_session}
use id_provider.Auth.Mfa.{enabled_factors, assert_valid_totp}

abbrev pub day_ms : ℕ
day_ms = 24 * 60 * 60_000

-- a nullable text in a payload
abbrev pub nullable : Option String → Json
nullable none = null
nullable (some s) = str s

pub record SignupInput : Type 0 where
  pub email : String
  pub password : String
  pub display_name : String
  pub ip_address : Option String

pub record SignedUp : Type 0 where
  pub user_id : ℕ
  pub email : String
  pub verification_token : String

-- the handler that `signup` runs in a transaction
unfoldable pub signup_body : Env → SignupInput → Action SignedUp
unfolding insert_user insert_email insert_password insert_verification_token write_security_event
    write_audit_log
signup_body e input = do
  n ← draw
  let user_id = e.random_uuid n
  insert_user (record {
    id = user_id;
    status = "active";
    deleted_at = none;
    deletion_requested_at = none;
    deletion_due_at = none;
    created_at = e.now;
  })
  email_id ← draw
  insert_email (record {
    id = e.random_uuid email_id;
    user_id = user_id;
    email = input.email;
    is_primary = true;
    is_verified = false;
    created_at = e.now;
  })
  salt ← draw
  insert_password (record {
    user_id = user_id;
    password_hash = e.argon2_hash salt input.password;
    updated_at = e.now;
  })
  t ← draw
  let token = opaque_token e "ev" t
  token_id ← draw
  insert_verification_token (record {
    id = e.random_uuid token_id;
    user_id = user_id;
    token_hash = hash_token e token;
    expires_at = e.now + day_ms;
    consumed_at = none;
    created_at = e.now;
  })
  write_security_event e "signup.created" (some user_id) (
      field "email" (str input.email) (
        field "ipAddress" (nullable input.ip_address)
          (field "displayName" (str input.display_name) end)))
  write_audit_log e (record {
    actor_user_id = some user_id;
    action = "user.signup";
    resource_type = "user";
    resource_id = some (e.uuid_text user_id);
    payload = field "email" (str input.email) (field "displayName" (str input.display_name) end);
  })
  pure (record { user_id = user_id; email = input.email; verification_token = token })

-- `code === "23505"`
abbrev pub is_unique_code : Option String → Bool
is_unique_code none = false
is_unique_code (some code) = str_eq code "23505"

-- the `catch`: an error with this code becomes a conflict
abbrev pub conflict : Env → Failure → Failure
conflict e unique_violation =
    if is_unique_code e.unique_violation_code
    then api 409 "email_already_exists"
    else unique_violation
conflict e f = f

abbrev pub on_error : {A : Type 0} → (Failure → Failure) → Result A × World → Result A × World
on_error h (ok a, w) = (ok a, w)
on_error h (err f, w) = (err (h f), w)

unfoldable pub signup : Env → SignupInput → Action SignedUp
unfolding transaction signup_body
signup e input w = on_error (conflict e) (transaction (signup_body e input) w)

pub record LoginInput : Type 0 where
  pub email : String
  pub password : String
  pub mfa_code : Option String
  pub mfa_factor_id : Option ℕ
  pub ip_address : Option String
  pub user_agent : Option String

-- a row of the query that joins `userEmails`, `users` and `userPasswords`
pub record LoginRow : Type 0 where
  pub user_id : ℕ
  pub password_hash : String
  pub email_verified : Bool

abbrev login_join : Database → UserEmail → Option UserPassword → Option LoginRow
login_join d m none = none
login_join d m (some p) =
    if has_user m.user_id d
    then some (record {
      user_id = m.user_id;
      password_hash = p.password_hash;
      email_verified = m.is_verified;
    })
    else none

abbrev login_row_of : Database → Option UserEmail → Option LoginRow
login_row_of d none = none
login_row_of d (some m) = login_join d m (find (λ p. p.user_id == m.user_id) d.passwords)

-- an email stands in at most one row, and so does a user's password
unfoldable pub login_row : String → Database → Option LoginRow
login_row email d = login_row_of d (find (λ m. str_eq m.email email) d.emails)

pub record LoggedIn : Type 0 where
  pub user_id : ℕ
  pub mfa_enabled : Bool
  pub tokens : TokenBundle

-- a row of `loginAttempts`
unfoldable pub record_attempt : Env → LoginInput → Bool → String → Action (Unit {0})
unfolding insert_attempt
record_attempt e input success reason = do
  id ← draw
  insert_attempt (record {
    id = e.random_uuid id;
    email = input.email;
    success = success;
    reason = some reason;
    ip_address = input.ip_address;
    created_at = e.now;
  })

unfoldable pub refuse : {A : Type 0} → Env → LoginInput → String → Failure → Action A
unfolding record_attempt
refuse e input reason failure = do record_attempt e input false reason; raise failure

-- the second factor: the factors decide whether one is wanted
unfoldable pub login_mfa : Env → LoginInput → ℕ → List MfaFactor → Action Bool
unfolding assert_valid_totp write_security_event
login_mfa e input user_id [] = pure false
login_mfa e input user_id (f ∷ fs) = do
  factor_id ← assert_valid_totp e (f ∷ fs) input.mfa_code input.mfa_factor_id
  write_security_event e "mfa.login_verified" (some user_id)
      (field "factorId" (str (e.uuid_text factor_id)) end)
  pure true

-- `if (!mfaEnabled)`
unfoldable pub show_warning : Env → LoginInput → ℕ → Bool → Action (Unit {0})
unfolding write_security_event
show_warning e input user_id true = pure tt
show_warning e input user_id false =
    write_security_event e "mfa.warning_shown" (some user_id) (field "email" (str input.email) end)

-- from `createSession` on
unfoldable pub complete_login : Env → LoginInput → ℕ → Bool → Action LoggedIn
unfolding create_session record_attempt write_security_event show_warning
complete_login e input user_id mfa_enabled = do
  tokens ← create_session e user_id input.ip_address input.user_agent
  record_attempt e input true "ok"
  write_security_event e "login.success" (some user_id) (
      field "email" (str input.email)
        (field "ipAddress" (nullable input.ip_address) (field "mfaEnabled" (bool mfa_enabled) end)))
  show_warning e input user_id mfa_enabled
  pure (record { user_id = user_id; mfa_enabled = mfa_enabled; tokens = tokens })

-- below the checks of the password and of the email
unfoldable pub login_verified : Env → LoginInput → ℕ → Action LoggedIn
unfolding login_mfa complete_login enabled_factors
login_verified e input user_id = do
  mfa_enabled ← login_mfa e input user_id (← gets (enabled_factors user_id))
  complete_login e input user_id mfa_enabled

unfoldable pub login_found : Env → LoginInput → LoginRow → Action LoggedIn
login_found e input row =
    if not (e.argon2_verify row.password_hash input.password)
    then refuse e input "invalid_password" (api 401 "invalid_credentials")
    else if not row.email_verified
    then refuse e input "email_not_verified" (api 403 "email_not_verified")
    else login_verified e input row.user_id

unfoldable pub login_from : Env → LoginInput → Option LoginRow → Action LoggedIn
login_from e input none = refuse e input "user_not_found" (api 401 "invalid_credentials")
login_from e input (some row) = login_found e input row

unfoldable pub login : Env → LoginInput → Action LoggedIn
login e input = do row ← gets (login_row input.email); login_from e input row
