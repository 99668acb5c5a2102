-- ===== src/Server/Login.antt =====
-- `login` of the server's `AuthService` (apps/idp-server/src/modules/auth/auth.service.ts).
use id_provider.Base.{
  ℕ, ◌==◌, Bool, true, false, not, ◌&&◌, ◌||◌, String, str_eq, Option, none, some, List, [], ◌∷◌,
  find, is_some, is_none, if◌then◌else◌,
}
use id_provider.Base.Json.{
  Json, null, bool, str, num, arr, obj, Items, nil, cons, Fields, field, end,
}
use id_provider.Store.{
  Database, User, UserEmail, UserPassword, SecurityEvent, Action, api, draw, gets, modify, pure,
  raise, raise_if, insert_session, insert_attempt, lacks_nullable_user, ◌>>=◌, ◌>>◌,
}
use id_provider.Store.Env.{Env}
use id_provider.Auth.Event.{opaque_token}
use id_provider.Auth.Session.{new_session}
use id_provider.Server.Settings.{ServerEnv, env_of}
use id_provider.Server.Rate.{RiskLevel, low, medium, high, given}
use id_provider.Server.Risk.{
  Risk, Factor, listed_ip, failed_attempts, new_device, impossible_travel, build_session_user_agent,
  assess_adaptive_risk,
}
use id_provider.Server.Factor.{MfaInput, has_enabled_mfa, enforce_mfa_for_login}
use text.Mathlib.Text.{starts_with}

pub record LoginInput : Type 0 where
  pub email : String
  pub password : String
  pub ip_address : Option String
  pub user_agent : Option String
  pub mfa : MfaInput
  pub device_id : Option String

pub record Row : Type 0 where
  pub user_id : ℕ
  pub status : String
  pub password_hash : String

abbrev row_join : Option User → Option UserPassword → Option Row
row_join (some u) (some p) =
    some (record { user_id = u.id; status = u.status; password_hash = p.password_hash })
row_join _ _ = none

abbrev row_of : Database → Option UserEmail → Option Row
row_of d none = none
row_of d (some m) =
    row_join (find (λ u. u.id == m.user_id) d.users)
      (find (λ p. p.user_id == m.user_id) d.passwords)

-- `findWithPasswordByEmail`
unfoldable pub find_with_password_by_email : String → Database → Option Row
find_with_password_by_email email d = row_of d (find (λ m. str_eq m.email email) d.emails)

-- `verifyPassword`: only hashes of argon2 are accepted
unfoldable pub verify_password : Env → String → String → Bool
verify_password e password stored = starts_with stored "$argon2" && e.argon2_verify stored password

-- the row, if the password is that of the account
abbrev pub verified_row : Env → String → Option Row → Option Row
verified_row e password none = none
verified_row e password (some r) =
    if verify_password e password r.password_hash then some r else none

-- `recordAttempt`
unfoldable pub record_attempt : Env → LoginInput → Bool → Action (Unit {0})
unfolding insert_attempt
record_attempt e input success = do
  id ← draw
  insert_attempt (record {
    id = e.random_uuid id;
    email = input.email;
    success = success;
    reason = some (if success then "ok" else "invalid_credentials");
    ip_address = input.ip_address;
    created_at = e.now;
  })

-- the private `createSecurityEvent`: a row that a constraint refuses is caught
unfoldable pub security_event : String → Option ℕ → Fields → Action (Unit {0})
security_event event_type user_id payload =
    let ev : SecurityEvent = record {
      user_id = user_id;
      event_type = event_type;
      payload = payload;
    } in
    modify (λ d. if lacks_nullable_user user_id d then d else record d { events = ev ∷ d.events })

abbrev nullable : Option String → Json
nullable none = null
nullable (some s) = str s

abbrev pub level_text : RiskLevel → String
level_text low = "low"
level_text medium = "medium"
level_text high = "high"

abbrev factor_fields : String → String → Json
factor_fields name severity = obj (field "factor" (str name) (field "severity" (str severity) end))

abbrev factor_details : String → String → Fields → Json
factor_details name severity details = obj (
    field "factor" (str name) (field "severity" (str severity) (field "details" (obj details) end)))

abbrev factor_json : Factor → Json
factor_json (listed_ip ip) = factor_details "ip_reputation" "high" (field "ipAddress" (str ip) end)
factor_json (failed_attempts n) =
    factor_details "ip_reputation" "medium" (field "failedCount" (num n) end)
factor_json new_device = factor_fields "new_device" "medium"
factor_json (impossible_travel old new elapsed) = factor_details "impossible_travel" "high" (
    field "previousIpAddress" (str old)
      (field "currentIpAddress" (str new) (field "elapsedMs" (num elapsed) end)))

abbrev factors_json : List Factor → Items
factors_json [] = nil
factors_json (f ∷ fs) = cons (factor_json f) (factors_json fs)

abbrev pub risk_payload : LoginInput → Risk → Fields
risk_payload input risk = field "email" (str input.email) (
    field "ipAddress" (nullable input.ip_address)
      (field "score" (num risk.score) (field "factors" (arr (factors_json risk.factors)) end)))

-- the private `createSession`
pub record Tokens : Type 0 where
  pub access_token : String
  pub refresh_token : String

unfoldable pub create_session : Env → ℕ → Option String → Option String → Action Tokens
unfolding insert_session
create_session e user_id ip_address user_agent = do
  at ← draw
  rt ← draw
  id ← draw
  insert_session (new_session e user_id ip_address user_agent at rt id)
  pure (record { access_token = opaque_token e "at" at; refresh_token = opaque_token e "rt" rt })

pub data LoginResult : Type 0 where
  mfa_required : ℕ → Option Risk → LoginResult
  logged_in : ℕ → Tokens → Bool → Risk → LoginResult

abbrev pub no_risk : Risk
no_risk = record { level = low; score = 0; factors = [] }

abbrev pub is_high : RiskLevel → Bool
is_high high = true
is_high _ = false

abbrev pub is_medium : RiskLevel → Bool
is_medium medium = true
is_medium _ = false

-- `adaptiveRisk.level !== "low" ? { adaptiveRisk } : {}`
abbrev shown_risk : Risk → Option Risk
shown_risk r = if is_high r.level || is_medium r.level then some r else none

unfoldable pub complete_login :
    ServerEnv → LoginInput → ℕ → Option String → Bool → Risk → Action LoginResult
unfolding create_session security_event
complete_login e input user_id agent mfa_enabled risk = do
  tokens ← create_session (env_of e) user_id input.ip_address agent
  security_event "login.success" (some user_id) (
      field "email" (str input.email) (
        field "ipAddress" (nullable input.ip_address) (
          field "mfaEnabled" (bool mfa_enabled) (
            field "adaptiveRiskLevel" (str (level_text risk.level)) (
              field "adaptiveRiskScore" (num risk.score)
                (field "adaptiveRiskFactors" (arr (factors_json risk.factors)) end))))))
  pure (logged_in user_id tokens mfa_enabled risk)

-- the part below the assessment of the risk
unfoldable pub login_assessed :
    ServerEnv → LoginInput → ℕ → Option String → Bool → Risk → Action LoginResult
unfolding complete_login enforce_mfa_for_login
login_assessed e input user_id agent mfa_enabled risk =
    if is_high risk.level
    then (do
      security_event "adaptive_mfa.blocked" (some user_id) (risk_payload input risk)
      raise (api 403 "adaptive_mfa_blocked"))
    else if is_medium risk.level && (not mfa_enabled && e.require_for_medium)
    then (do
      security_event "adaptive_mfa.enrollment_required" (some user_id) (risk_payload input risk)
      raise (api 401 "adaptive_mfa_enrollment_required"))
    else if mfa_enabled
        && (is_none (given input.mfa.mfa_code) && is_none (given input.mfa.mfa_recovery_code))
    then pure (mfa_required user_id (shown_risk risk))
    else if mfa_enabled
    then (do
      checked ← enforce_mfa_for_login e user_id input.ip_address input.mfa
      complete_login e input user_id agent mfa_enabled risk)
    else complete_login e input user_id agent mfa_enabled risk

-- the part below the password
unfoldable pub login_verified : ServerEnv → LoginInput → Row → Action LoginResult
unfolding login_assessed
login_verified e input row = do
  mfa_enabled ← gets (has_enabled_mfa row.user_id)
  let agent = build_session_user_agent e input.user_agent input.device_id
  risk ← gets (λ d.
      if e.adaptive_mfa_enabled
      then assess_adaptive_risk e row.user_id input.ip_address agent d
      else no_risk)
  login_assessed e input row.user_id agent mfa_enabled risk

unfoldable pub refuse_credentials : ServerEnv → LoginInput → Action LoginResult
unfolding record_attempt security_event
refuse_credentials e input = do
  record_attempt (env_of e) input false
  security_event "login.failed" none (
      field "email" (str input.email) (
        field "ipAddress" (nullable input.ip_address)
          (field "reason" (str "invalid_credentials") end)))
  raise (api 401 "invalid_credentials")

unfoldable pub refuse_inactive : LoginInput → Row → Action LoginResult
unfolding security_event
refuse_inactive input row = do
  security_event "login.failed" (some row.user_id) (
      field "email" (str input.email) (
        field "ipAddress" (nullable input.ip_address)
          (field "reason" (str "inactive_user") (field "status" (str row.status) end))))
  raise (api 401 "invalid_credentials")

unfoldable pub login_from : ServerEnv → LoginInput → Option Row → Action LoginResult
unfolding refuse_credentials refuse_inactive login_verified record_attempt
login_from e input none = refuse_credentials e input
login_from e input (some row) = do
  record_attempt (env_of e) input true
  if str_eq row.status "active" then login_verified e input row else refuse_inactive input row

unfoldable pub login : ServerEnv → LoginInput → Action LoginResult
unfolding login_from find_with_password_by_email verify_password
login e input = do
  raise_if (is_some (given input.mfa.mfa_code) && is_some (given input.mfa.mfa_recovery_code))
      (api 400 "mfa_method_conflict")
  row ← gets (find_with_password_by_email input.email)
  login_from e input (verified_row (env_of e) input.password row)
