-- ===== src/Auth/Mfa.antt =====
-- Second factors: `assertValidTotpMfa`, `enrollMfa`, `verifyMfa` and `getMe`
-- (packages/auth-core/src/auth-service.ts).
use id_provider.Base.{
  ℕ, ◌==◌, leb, Bool, true, false, ◌&&◌, not, String, str_eq, Option, none, some, List, find,
  select, update, any, take, is_some, if◌then◌else◌,
}
use id_provider.Base.Json.{str, field, end}
use id_provider.Store.{
  Database, MfaFactor, User, UserEmail, Action, api, draw, modify, gets, pure, raise, raise_if,
  or_raise, insert_factor, ◌>>=◌, ◌>>◌,
}
use id_provider.Store.Env.{Env}
use id_provider.Auth.Event.{write_security_event}
use Prim.Native.String
use Prim.Native.Char.{code}

-- the factors that a login is asked for
unfoldable pub enabled_factors : ℕ → Database → List MfaFactor
enabled_factors user_id d = take 20 (select (λ f. f.user_id == user_id && f.enabled) d.factors)

-- `typeof secret === "string"`
abbrev pub is_totp : MfaFactor → Bool
is_totp f = str_eq f.kind "totp" && is_some f.secret

-- `input.factorId ? totpFactors.find(…) : totpFactors[0]`
abbrev pub select_factor : Option ℕ → List MfaFactor → Option MfaFactor
select_factor none fs = find is_totp fs
select_factor (some id) fs = find (λ f. is_totp f && f.id == id) fs

-- `!x` on an optional text: absent or empty
abbrev pub given : Option String → Option String
given none = none
given (some s) = if str_eq s "" then none else some s

-- a factor's secret against the code
unfoldable pub check_factor : Env → String → Option MfaFactor → Action ℕ
check_factor e code none = raise (api 401 "webauthn_mfa_required")
check_factor e code (some f) = do
  secret ← or_raise (given f.secret) (api 401 "webauthn_mfa_required")
  raise_if (not (e.totp_check code secret)) (api 401 "invalid_mfa_code")
  pure f.id

-- the id of the factor that the code fits
unfoldable pub assert_valid_totp : Env → List MfaFactor → Option String → Option ℕ → Action ℕ
unfolding check_factor
assert_valid_totp e factors code factor_id = do
  c ← or_raise (given code) (api 401 "mfa_required")
  check_factor e c (select_factor factor_id factors)

pub record Me : Type 0 where
  pub user_id : ℕ
  pub email : String
  pub status : String
  pub email_verified : Bool

abbrev me_of : User → Option UserEmail → Option Me
me_of u none = none
me_of u (some m) =
    some (record {
      user_id = u.id;
      email = m.email;
      status = u.status;
      email_verified = m.is_verified;
    })

abbrev me_row : ℕ → Database → Option User → Option Me
me_row user_id d none = none
me_row user_id d (some u) = me_of u (find (λ m. m.user_id == user_id && m.is_primary) d.emails)

unfoldable pub get_me : ℕ → Action Me
get_me user_id = do
  or_raise (← gets (λ d. me_row user_id d (find (λ u. u.id == user_id) d.users)))
      (api 404 "user_not_found")

pub record Enrollment : Type 0 where
  pub id : ℕ
  pub secret : String
  pub provisioning_uri : String

unfoldable pub enroll_mfa : Env → ℕ → Action Enrollment
unfolding insert_factor get_me write_security_event
enroll_mfa e user_id = do
  n ← draw
  m ← draw
  let secret = e.random_text n
  let id = e.random_uuid m
  insert_factor (record {
    id = id;
    user_id = user_id;
    kind = "totp";
    secret = some secret;
    enabled = false;
    created_at = e.now;
  })
  account ← get_me user_id
  write_security_event e "mfa.enroll_started" (some user_id)
      (field "factorId" (str (e.uuid_text id)) end)
  pure (record {
    id = id;
    secret = secret;
    provisioning_uri = e.keyuri account.email e.mfa_issuer secret;
  })

abbrev all_digits : String → Bool
all_digits String.[] = true
all_digits (String.◌∷◌ c s) = leb b'0' (code c) && (leb (code c) b'9' && all_digits s)

-- `/^\d{6}$/.test(code)`
unfoldable pub is_six_digits : String → Bool
is_six_digits s = String.count s == 6 && all_digits s

abbrev pub is_factor : ℕ → ℕ → MfaFactor → Bool
is_factor factor_id user_id f = f.id == factor_id && f.user_id == user_id

abbrev pub enable : MfaFactor → MfaFactor
enable f = record f { enabled = true }

unfoldable pub verify_mfa : Env → ℕ → ℕ → String → Action (Unit {0})
unfolding write_security_event
verify_mfa e user_id factor_id code = do
  raise_if (not (is_six_digits code)) (api 400 "invalid_mfa_code")
  factor ←
      or_raise (← gets (λ d. find (is_factor factor_id user_id) d.factors))
        (api 404 "mfa_factor_not_found")
  secret ← or_raise (given factor.secret) (api 400 "invalid_mfa_factor")
  raise_if (not (e.totp_check code secret)) (api 400 "invalid_mfa_code")
  hit ← gets (λ d. any (is_factor factor_id user_id) d.factors)
  modify (λ d. record d { factors = update (is_factor factor_id user_id) enable d.factors })
  raise_if (not hit) (api 404 "mfa_factor_not_found")
  write_security_event e "mfa.enabled" (some user_id)
      (field "factorId" (str (e.uuid_text factor_id)) end)
