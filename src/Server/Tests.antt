-- ===== src/Server/Tests.antt =====
-- Logins and rate limits of a small database (apps/idp-server/src/modules/auth/auth.service.ts).
use id_provider.Base.{
  ℕ, ◌≤◌, ◌≡◌, refl, true, false, ◌&&◌, not, ◌||◌, none, some, List, [], ◌∷◌, arith, if◌then◌else◌,
  Bool, String,
}
use id_provider.Store.{User, UserEmail, UserPassword, UserSession, World, ok, err, api, ◌>>=◌}
use id_provider.Store.Sample.{env, empty_database}
use id_provider.Auth.Event.{opaque_token}
use id_provider.Server.Settings.{ServerEnv}
use id_provider.Server.Rate.{low, medium, high, given}
use id_provider.Server.Risk.{
  find_latest_by_user_id, assess_adaptive_risk, build_session_user_agent, count_failed_attempts,
}
use id_provider.Server.Factor.{has_enabled_mfa, enroll_mfa}
use id_provider.Server.Login.{
  LoginInput, Row, Tokens, mfa_required, logged_in, no_risk, is_high, is_medium,
  find_with_password_by_email, verify_password, login,
}
use id_provider.Server.Limit.{RateCall, allowed_for, consume_limit}
use id_provider.Server.Level.{
  is_listed, has_failures, has_new_device, has_travelled, assess_adaptive_risk_level,
}
use id_provider.Server.Check.{Accepted}
use id_provider.Server.Entry.{recorded, risk_in, login_admits}

abbrev settings : ServerEnv
settings = record {
  recovery = record {
    env = env;
    code_count = 2;
    code_length = 6;
    pepper = "pepper";
    random_byte = λ n. n;
    hmac_sha256 = λ k s. s;
    upper = λ s. s;
    byte_fuel = 10;
  };
  adaptive_mfa_enabled = true;
  require_for_medium = true;
  ip_failure_window_seconds = 600;
  ip_failure_high_threshold = 5;
  travel_window_minutes = 60;
  high_risk_ips = "::6" ∷ [];
  rate_limit_mfa_recovery = 5;
  bot_risk_threshold = 3;
  bot_risk_window_seconds = 60;
  bot_risk_watermark = 1;
  trim = λ s. s;
}

abbrev user : User
user = record {
  id = 7;
  status = "active";
  deleted_at = none;
  deletion_requested_at = none;
  deletion_due_at = none;
  created_at = 0;
}

abbrev email : UserEmail
email = record {
  id = 1;
  user_id = 7;
  email = "a@x.org";
  is_primary = true;
  is_verified = true;
  created_at = 0;
}

abbrev password : UserPassword
password = record { user_id = 7; password_hash = "$argon2-secret"; updated_at = 0 }

abbrev world : World
world = record {
  db = record empty_database { users = user ∷ []; emails = email ∷ []; passwords = password ∷ [] };
  draws = 0;
  notified = [];
  counters = [];
}

abbrev input_from : String → LoginInput
input_from ip = record {
  email = "a@x.org";
  password = "$argon2-secret";
  ip_address = some ip;
  user_agent = some "agent";
  mfa = record { mfa_code = none; mfa_factor_id = none; mfa_recovery_code = none };
  device_id = none;
}

abbrev tokens : Tokens
tokens = record { access_token = "at_x"; refresh_token = "rt_xx" }

admitted : (login settings (input_from "::1") world).0 ≡ ok (logged_in 7 tokens false no_risk)
unfolding login ◌>>=◌ assess_adaptive_risk count_failed_attempts find_latest_by_user_id opaque_token
admitted = refl

blocked : (login settings (input_from "::6") world).0 ≡ err (api 403 "adaptive_mfa_blocked")
unfolding login ◌>>=◌ assess_adaptive_risk count_failed_attempts find_latest_by_user_id
blocked = refl

-- a factor is asked for as soon as it is enrolled
asked :
    (login settings (input_from "::1") (enroll_mfa settings 7 world).1).0 ≡ ok (mfa_required 7 none)
unfolding login enroll_mfa ◌>>=◌ assess_adaptive_risk count_failed_attempts find_latest_by_user_id
asked = refl

abbrev session : UserSession
session = record {
  id = 1;
  user_id = 7;
  access_token_hash = "a";
  refresh_token_hash = "r";
  ip_address = some "::2";
  user_agent = some "other";
  expires_at = 2000;
  refresh_expires_at = 2000;
  revoked_at = none;
  last_seen_at = 900;
  created_at = 900;
}

abbrev travelling : World
travelling = record world { db = record world.db { sessions = session ∷ [] } }

impossible : (login settings (input_from "::1") travelling).0 ≡ err (api 403 "adaptive_mfa_blocked")
unfolding login ◌>>=◌ assess_adaptive_risk count_failed_attempts find_latest_by_user_id
    build_session_user_agent
impossible = refl

login_admits_example :
    let w1 = recorded settings (input_from "::1") world in
    (row : Row) × (find_with_password_by_email "a@x.org" world.db ≡ some row)
    × (verify_password env "$argon2-secret" row.password_hash ≡ true)
    × (row.status ≡ "active")
    × (◌≡◌ {A = Bool} false false)
    × (7 ≡ row.user_id)
    × (no_risk ≡ risk_in settings (input_from "::1") row.user_id w1.db)
    × (is_high no_risk.level ≡ false)
    × ((is_medium no_risk.level && (not false && settings.require_for_medium)) ≡ false)
    × (false ≡ has_enabled_mfa row.user_id w1.db)
    × (◌≡◌ {A = Bool} false true → Accepted settings row.user_id (input_from "::1") w1)
    × (s : UserSession) × (s.user_id ≡ row.user_id)
    × ((login settings (input_from "::1") world).1.db.sessions ≡ s ∷ world.db.sessions)
login_admits_example =
    login_admits settings (input_from "::1") world 7 tokens false no_risk admitted

assess_adaptive_risk_level_example :
    let d = travelling.db in
    let latest = find_latest_by_user_id 7 d in
    (assess_adaptive_risk settings 7 (some "::1") (some "other") d).level ≡ (
      if is_listed settings 7 (some "::1") (some "other") d (given (some "::1"))
        || (has_travelled settings 7 (some "::1") (some "other") d latest
            && (has_new_device settings 7 (some "::1") (some "other") d latest
                || has_failures settings 7 (some "::1") (some "other") d (given (some "::1"))))
      then high
      else if has_failures settings 7 (some "::1") (some "other") d (given (some "::1"))
          || has_travelled settings 7 (some "::1") (some "other") d latest
      then medium
      else low)
assess_adaptive_risk_level_example =
    assess_adaptive_risk_level settings 7 (some "::1") (some "other") travelling.db

abbrev call : ℕ → String → RateCall
call now name = record { now = now; name = name; limit = 2; window = 60 }

abbrev calls : List RateCall
calls = call 20 "b" ∷ call 30 "a" ∷ call 40 "a" ∷ call 50 "a" ∷ []

-- the third and fourth call are refused
counted : allowed_for "a" (call 10 "a" ∷ calls) world ≡ 2
unfolding allowed_for
counted = refl

consume_limit_example : allowed_for "a" (call 10 "a" ∷ calls) world ≤ 2
consume_limit_example = consume_limit "a" 10 2 60 calls world refl (
  (omega arith, λ h. refl),
  ((omega arith, λ h. refl), ((omega arith, λ h. refl), ((omega arith, λ h. refl), tt))),
)
