-- ===== src/Server/Factor.antt =====
-- Second factors in the server: `MfaService` (apps/idp-server/src/modules/mfa/mfa.service.ts) with
-- its repository, and `enforceMfaForLogin` (apps/idp-server/src/modules/auth/auth.service.ts).
use id_provider.Base.{
  ℕ, ltb, ◌==◌, Bool, true, false, not, ◌&&◌, ◌||◌, String, str_eq, Option, none, some, List, [],
  take, select, find, length, if◌then◌else◌,
}
use id_provider.Store.{
  Database, MfaFactor, Action, api, draw, gets, pure, raise, raise_if, or_raise, insert_factor,
  ◌>>=◌, ◌>>◌,
}
use id_provider.Recovery.Service.{generate_codes_if_missing, consume_code}
use id_provider.Server.Settings.{ServerEnv, env_of}
use id_provider.Server.Rate.{Allowance, given, or_unknown, consume}
use Prim.Native.String

-- `findActiveFactorsByUserId`
unfoldable pub find_active_factors_by_user_id : ℕ → Database → List MfaFactor
find_active_factors_by_user_id user_id d =
    take 20 (select (λ f. f.user_id == user_id && f.enabled) d.factors)

unfoldable pub has_enabled_mfa : ℕ → Database → Bool
unfolding find_active_factors_by_user_id
has_enabled_mfa user_id d = ltb 0 (length (find_active_factors_by_user_id user_id d))

-- the id and the secret of a factor that is in force at once
unfoldable pub enroll_mfa : ServerEnv → ℕ → Action (ℕ × String)
unfolding insert_factor
enroll_mfa e user_id = do
  n ← draw
  m ← draw
  let secret = (env_of e).random_text n
  let id = (env_of e).random_uuid m
  insert_factor (record {
    id = id;
    user_id = user_id;
    kind = "totp";
    secret = some secret;
    enabled = true;
    created_at = (env_of e).now;
  })
  pure (id, secret)

-- the secret of a factor of the user that can verify a code
abbrev pub totp_secret : ℕ → Option MfaFactor → Option String
totp_secret user_id none = none
totp_secret user_id (some f) =
    if f.user_id == user_id && str_eq f.kind "totp" then given f.secret else none

-- the recovery codes issued
unfoldable pub verify_mfa : ServerEnv → ℕ → ℕ → String → Bool → Action (List String)
unfolding generate_codes_if_missing
verify_mfa e user_id factor_id code issue_recovery_codes = do
  factor ← gets (λ d. find (λ f. f.id == factor_id) d.factors)
  secret ← or_raise (totp_secret user_id factor) (api 401 "invalid_mfa")
  raise_if (not ((env_of e).totp_check code secret)) (api 401 "invalid_mfa")
  let issued = generate_codes_if_missing e.recovery user_id "initial_mfa_setup"
  if issue_recovery_codes then issued else pure []

-- the `mfa` argument of a login
pub record MfaInput : Type 0 where
  pub mfa_code : Option String
  pub mfa_factor_id : Option ℕ
  pub mfa_recovery_code : Option String

-- the two rate limits of recovery codes
abbrev pub rate_of_user : ServerEnv → ℕ → Action Allowance
rate_of_user e user_id =
    consume (env_of e).now (String.◌++◌ "mfa-recovery:" ((env_of e).uuid_text user_id))
      e.rate_limit_mfa_recovery 60

abbrev pub rate_of_ip : ServerEnv → Option String → Action Allowance
rate_of_ip e ip_address =
    consume (env_of e).now (String.◌++◌ "mfa-recovery-ip:" (or_unknown ip_address))
      e.rate_limit_mfa_recovery 60

-- a recovery code, under the rate limits
unfoldable pub enforce_recovery_code : ServerEnv → ℕ → Option String → String → Action (Unit {0})
unfolding consume consume_code
enforce_recovery_code e user_id ip_address code = do
  rate ← rate_of_user e user_id
  ip_rate ← rate_of_ip e ip_address
  raise_if (not rate.allowed || not ip_rate.allowed) (api 429 "rate_limited")
  remaining ← consume_code e.recovery user_id code
  pure tt

unfoldable pub enforce_code : ServerEnv → ℕ → Option String → Option ℕ → Action (Unit {0})
unfolding verify_mfa
enforce_code e user_id (some code) (some factor_id) = do
  codes ← verify_mfa e user_id factor_id code false
  pure tt
enforce_code e user_id none factor_id = raise (api 401 "mfa_required")
enforce_code e user_id (some code) none = raise (api 401 "mfa_required")

abbrev pub by_method : ServerEnv → ℕ → Option String → MfaInput → Option String → Action (Unit {0})
by_method e user_id ip_address mfa none =
    enforce_code e user_id (given mfa.mfa_code) mfa.mfa_factor_id
by_method e user_id ip_address mfa (some code) = enforce_recovery_code e user_id ip_address code

-- whether a second factor was asked for
unfoldable pub enforce_mfa_for_login : ServerEnv → ℕ → Option String → MfaInput → Action Bool
unfolding has_enabled_mfa enforce_recovery_code enforce_code
enforce_mfa_for_login e user_id ip_address mfa = do
  mfa_enabled ← gets (has_enabled_mfa user_id)
  let check = by_method e user_id ip_address mfa (given mfa.mfa_recovery_code) >>= λ _. pure true
  if mfa_enabled then check else pure false
