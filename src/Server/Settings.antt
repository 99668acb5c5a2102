-- ===== src/Server/Settings.antt =====
-- The settings of the server (apps/idp-server/src/config/env.ts) that its services read.
use id_provider.Base.{ℕ, Bool, String, List}
use id_provider.Store.Env.{Env}
use id_provider.Recovery.Code.{RecoveryEnv}

-- `ADAPTIVE_MFA_*`, `RATE_LIMIT_MFA_RECOVERY_PER_MIN`, `BOT_RISK_*` and those of the recovery codes;
-- `trim` of a text, and `$argon2` as the start of a hash. The watermark of the bot risk is a
-- product with a floating-point number, and stands here as its value.
pub record ServerEnv : Type 0 where
  pub recovery : RecoveryEnv
  pub adaptive_mfa_enabled : Bool
  pub require_for_medium : Bool
  pub ip_failure_window_seconds : ℕ
  pub ip_failure_high_threshold : ℕ
  pub travel_window_minutes : ℕ
  pub high_risk_ips : List String
  pub rate_limit_mfa_recovery : ℕ
  pub bot_risk_threshold : ℕ
  pub bot_risk_window_seconds : ℕ
  pub bot_risk_watermark : ℕ
  pub trim : String → String

abbrev pub env_of : ServerEnv → Env
env_of e = e.recovery.env
