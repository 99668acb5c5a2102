-- ===== src/Auth/Tests.antt =====
-- Runs of the methods of `AuthService` on a small database, and the theorems at those runs
-- (packages/auth-core/src/auth-service.ts).
use id_provider.Base.{
  ℕ, ◌≡◌, refl, sym, ◌∙◌, eq_iff, ◌≢◌, arith, true, false, not, ◌||◌, String, str_eq, Option, none,
  some, List, [], ◌∷◌, All, find, update, length, ◌==◌,
}
use id_provider.Store.{
  unique_violation, Database, User, UserEmail, UserPassword, MfaFactor, UserSession, OneTimeToken,
  World, ok, err, api, ◌>>=◌,
}
use id_provider.Store.Sample.{env, empty_database}
use id_provider.Store.Env.{Env, at_time}
use id_provider.Auth.Event.{hash_token, opaque_token}
use id_provider.Auth.Session.{
  create_session, bundle, authenticate, refresh, refreshes, Refreshed, introspect,
}
use id_provider.Auth.Mfa.{enabled_factors}
use id_provider.Auth.Revoke.{revoke_by_token, is_open}
use id_provider.Auth.Login.{
  LoginInput, LoginRow, LoggedIn, login, login_row, login_from, login_found, login_verified,
}
use id_provider.Auth.Password.{
  change_password, verify_current_password, confirm_password_reset, is_usable, with_hash,
}
use id_provider.Auth.Email.{confirm_email_verification, is_primary_of}
use id_provider.Auth.Service.{Request, serve_all}
use id_provider.Auth.Invariant.{IsWellFormed, serve_all-IsWellFormed}
use id_provider.Auth.Revocation.{reuse_event, revoked_forever, revoke_by_token-authenticate}
use id_provider.Auth.Creation.{principal, create_session-authenticate}
use id_provider.Auth.Rotation.{refresh_rotates}
use id_provider.Auth.Credentials.{refresh_unknown, closed-authenticate, change_password_replaces}
use id_provider.Auth.Tokens.{confirm_password_reset_once, confirm_email_verification_once}
use id_provider.Auth.Admission.{PassesMfa, login_checks}
use id_provider.Auth.Introspection.{introspect-authenticate, introspected, authenticated}
use id_provider.Access.Entitlement.{authorization_snapshot}
use id_provider.Auth.Enrollment.{signup_taken, verify_mfa_checks}
use id_provider.Auth.Login.{SignupInput, signup}
use id_provider.Auth.Mfa.{verify_mfa, is_factor, is_six_digits, enable, given}
use mathlib.Core.Bool.{false≢true}

abbrev user : User
user = record {
  id = 7;
  status = "active";
  deleted_at = none;
  deletion_requested_at = none;
  deletion_due_at = none;
  created_at = 1;
}

abbrev email : UserEmail
email = record {
  id = 1;
  user_id = 7;
  email = "a@x.org";
  is_primary = true;
  is_verified = true;
  created_at = 1;
}

abbrev password : UserPassword
password = record { user_id = 7; password_hash = "secret"; updated_at = 1 }

abbrev factor : MfaFactor
factor = record {
  id = 5;
  user_id = 7;
  kind = "totp";
  secret = some "123456";
  enabled = true;
  created_at = 1;
}

abbrev session : ℕ → String → String → Option ℕ → UserSession
session id access refresh revoked = record {
  id = id;
  user_id = 7;
  access_token_hash = access;
  refresh_token_hash = refresh;
  ip_address = none;
  user_agent = none;
  expires_at = 5000;
  refresh_expires_at = 9000;
  revoked_at = revoked;
  last_seen_at = 1;
  created_at = 1;
}

abbrev token : String → OneTimeToken
token hash = record {
  id = 3;
  user_id = 7;
  token_hash = hash;
  expires_at = 2000;
  consumed_at = none;
  created_at = 1;
}

abbrev database : Database
database = record empty_database {
  users = user ∷ [];
  emails = email ∷ [];
  passwords = password ∷ [];
  factors = factor ∷ [];
  sessions = session 50 "a" "r" none ∷ session 40 "old" "older" (some 900) ∷ [];
  reset_tokens = token "reset" ∷ [];
  verification_tokens = token "verify" ∷ [];
}

abbrev world : World
world = record { db = database; draws = 0; notified = []; counters = [] }

text_apart : (a b : String) → str_eq a b ≡ false → a ≢ b
text_apart a b h e = false≢true (sym h ∙ (eq_iff a b).1 e)

database-IsWellFormed : IsWellFormed database
database-IsWellFormed = record {
  sessions = record {
    ids = (((λ h. ground arith), tt), (tt, tt));
    access_hashes = ((text_apart "old" "a" refl, tt), (tt, tt));
    refresh_hashes = ((text_apart "older" "r" refl, tt), (tt, tt));
    owners = (refl, (refl, tt));
  };
  accounts = record {
    users = (tt, tt);
    emails = (tt, tt);
    email_owners = (refl, tt);
    passwords = (tt, tt);
    password_owners = (refl, tt);
  };
  resets = record { ids = (tt, tt); hashes = (tt, tt) };
  verifications = record { ids = (tt, tt); hashes = (tt, tt) };
  identities = tt;
}

abbrev input : String → Option String → LoginInput
input password code = record {
  email = "a@x.org";
  password = password;
  mfa_code = code;
  mfa_factor_id = none;
  ip_address = none;
  user_agent = none;
}

abbrev requests : List (Env × Request)
requests = (env, Request.login (input "secret" (some "123456"))) ∷ (env, Request.refresh "r") ∷ []

serve_all-IsWellFormed_example : IsWellFormed (serve_all requests world).db
serve_all-IsWellFormed_example = serve_all-IsWellFormed requests world database-IsWellFormed

authenticated_a : (authenticate env "a" world).0 ≡ ok (principal 7 50)
unfolding authenticate ◌>>=◌
authenticated_a = refl

authenticated_later :
    (authenticate env "a" (serve_all ((env, Request.authenticate "old") ∷ []) world)).0
    ≡ ok (principal 7 50)
unfolding serve_all authenticate ◌>>=◌
authenticated_later = refl

revoked_forever_example : (principal 7 50).session_id ≢ 40
revoked_forever_example =
    revoked_forever 40 world ((env, Request.authenticate "old") ∷ []) env "a" (principal 7 50)
      database-IsWellFormed refl authenticated_later

closed-authenticate_example : (principal 7 50).user_id ≢ 8
closed-authenticate_example =
    closed-authenticate env 8 "a" world (principal 7 50) (refl, (refl, tt)) authenticated_a

revoke_by_token-authenticate_example :
    let w' = (revoke_by_token env "a" world).1 in
    (authenticate (at_time env 2000) "a" w' ≡ (err (api 401 "unauthorized"), w'))
    × ((refresh (at_time env 2000) "a" w').0 ≡ err (api 401 "invalid_refresh_token"))
revoke_by_token-authenticate_example = revoke_by_token-authenticate env 2000 "a" world

create_session-authenticate_example :
    let (r, w') = create_session env 7 none none world in
    (r ≡ ok (bundle env 7 0 1 w'.db))
    × ((authenticate (at_time env 2000) (opaque_token env "at" 0) w').0 ≡ ok (principal 7 3))
unfolding opaque_token
create_session-authenticate_example =
    create_session-authenticate env 7 2000 none none world refl refl (ground arith)

abbrev rotated : Refreshed
rotated = record { user_id = 7; tokens = bundle env 7 0 1 database }

refreshed_r : (refresh env "r" world).0 ≡ ok rotated
unfolding refresh opaque_token authorization_snapshot ◌>>=◌
refreshed_r = refl

fresh_token : hash_token env (rotated.tokens.refresh_token) ≢ hash_token env "r"
unfolding opaque_token
fresh_token = text_apart "rt_x" "r" refl

refresh_rotates_example :
    let w' = (refresh env "r" world).1 in
    (s : UserSession) × (find (refreshes 1000 "r") database.sessions ≡ some s)
    × (7 ≡ s.user_id)
    × ((authenticate (at_time env 2000) (rotated.tokens.access_token) w').0
        ≡ ok (principal s.user_id s.id))
    × ((refresh (at_time env 3000) "r" w').0 ≡ err (api 401 "invalid_refresh_token"))
refresh_rotates_example =
    refresh_rotates env "r" world rotated 2000 3000 database-IsWellFormed refreshed_r (ground arith)
      fresh_token

refresh_unknown_example : refresh env "stolen" world ≡ (
  err (api 401 "invalid_refresh_token"),
  record world { notified = reuse_event env "stolen" ∷ [] },
)
refresh_unknown_example = refresh_unknown env "stolen" world refl

changed : (change_password env 7 "secret" "new" world).0 ≡ ok tt
unfolding change_password ◌>>=◌
changed = refl

change_password_replaces_example :
    let w' = (change_password env 7 "secret" "new" world).1 in
    ((verify_current_password env 7 "secret" world).0 ≡ ok tt)
    × ((verify_current_password env 7 "new" w').0 ≡ ok tt)
    × All (λ s. is_open 7 s ≡ false) w'.db.sessions
change_password_replaces_example = change_password_replaces env 7 "secret" "new" world changed refl

reset_done : (confirm_password_reset env "reset" "new" world).0 ≡ ok tt
unfolding confirm_password_reset ◌>>=◌
reset_done = refl

confirm_password_reset_once_example :
    let w' = (confirm_password_reset env "reset" "new" world).1 in
    (t : OneTimeToken) × (find (is_usable 1000 "reset") database.reset_tokens ≡ some t)
    × ((confirm_password_reset (at_time env 1500) "reset" "again" w').0
        ≡ err (api 400 "invalid_reset_token"))
    × All (λ s. is_open t.user_id s ≡ false) w'.db.sessions
    × (w'.db.passwords
        ≡ update (λ p. p.user_id == t.user_id) (with_hash 1000 "new") database.passwords)
confirm_password_reset_once_example =
    confirm_password_reset_once env "reset" "new" "again" world 1500 database-IsWellFormed
      reset_done

verification_done : (confirm_email_verification env "verify" world).0 ≡ ok tt
unfolding confirm_email_verification ◌>>=◌
verification_done = refl

confirm_email_verification_once_example :
    let w' = (confirm_email_verification env "verify" world).1 in
    (t : OneTimeToken) × (find (is_usable 1000 "verify") database.verification_tokens ≡ some t)
    × All (λ m. not (is_primary_of t.user_id m) || m.is_verified ≡ true) w'.db.emails
    × ((confirm_email_verification (at_time env 1500) "verify" w').0
        ≡ err (api 400 "invalid_verification_token"))
confirm_email_verification_once_example =
    confirm_email_verification_once env "verify" world 1500 database-IsWellFormed verification_done

abbrev logged_in : LoggedIn
logged_in = record { user_id = 7; mfa_enabled = true; tokens = bundle env 7 0 1 database }

login_done : (login env (input "secret" (some "123456")) world).0 ≡ ok logged_in
unfolding login login_from login_found login_verified login_row opaque_token authorization_snapshot
    ◌>>=◌
login_done = refl

login_checks_example :
    (row : LoginRow) × (login_row "a@x.org" database ≡ some row)
    × (str_eq row.password_hash "secret" ≡ true)
    × (row.email_verified ≡ true)
    × PassesMfa env (enabled_factors row.user_id database) (some "123456") none
    × (7 ≡ row.user_id)
login_checks_example = login_checks env (input "secret" (some "123456")) world logged_in login_done

wrong_code : (login env (input "secret" (some "000000")) world).0 ≡ err (api 401 "invalid_mfa_code")
unfolding login login_from login_found login_verified login_row ◌>>=◌
wrong_code = refl

introspect-authenticate_example :
    introspected (introspect env "a" database) ≡ authenticated (authenticate env "a" world).0
introspect-authenticate_example = introspect-authenticate env "a" world database-IsWellFormed

abbrev newcomer : SignupInput
newcomer = record { email = "a@x.org"; password = "secret"; display_name = "A"; ip_address = none }

signup_taken_example :
    ((signup env newcomer world).0 ≡ err unique_violation)
    × ((signup env newcomer world).1.db ≡ database)
signup_taken_example = signup_taken env newcomer world refl

-- the answer where the error for the broken constraint shows its code
taken_with_code :
    (signup (record env { unique_violation_code = some "23505" }) newcomer world).0
    ≡ err (api 409 "email_already_exists")
unfolding signup ◌>>=◌
taken_with_code = refl

mfa_verified : (verify_mfa env 7 5 "123456" world).0 ≡ ok tt
unfolding verify_mfa is_six_digits ◌>>=◌
mfa_verified = refl

verify_mfa_checks_example :
    (f : MfaFactor) × (secret : String) × (find (is_factor 5 7) database.factors ≡ some f)
    × (given f.secret ≡ some secret)
    × (is_six_digits "123456" ≡ true)
    × (str_eq "123456" secret ≡ true)
    × ((verify_mfa env 7 5 "123456" world).1.db.factors
        ≡ update (is_factor 5 7) enable database.factors)
verify_mfa_checks_example = verify_mfa_checks env 7 5 "123456" world mfa_verified

-- a code has six digits, all of them decimal
five_digits : (is_six_digits "12345" ≡ false) × (is_six_digits "12345a" ≡ false)
unfolding is_six_digits
five_digits = (refl, refl)

-- a revoked token is not active
old_token : introspected (introspect env "old" database) ≡ none
unfolding introspect
old_token = refl

-- a login leaves a session, an attempt and two events
login_state :
    let w = (login env (input "secret" (some "123456")) world).1 in
    (length w.db.sessions ≡ 3) × (length w.db.attempts ≡ 1) × (length w.db.events ≡ 2)
unfolding login login_from login_found login_verified login_row opaque_token ◌>>=◌
login_state = (refl, refl, refl)
