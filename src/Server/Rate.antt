-- ===== src/Server/Rate.antt =====
-- `RateLimiter.consume` (apps/idp-server/src/core/rate-limiter.ts) and `assessBotRiskForLogin`
-- (apps/idp-server/src/modules/auth/auth.service.ts).
use id_provider.Base.{
  ℕ, ◌+◌, ◌-◌, ◌*◌, ltb, leb, Bool, true, false, not, ◌&&◌, ◌||◌, String, str_eq, Option, none,
  some, List, ◌∷◌, find, update, delete, if◌then◌else◌,
}
use id_provider.Store.{Counter, Action, ok, pure, ◌>>=◌}
use id_provider.Server.Settings.{ServerEnv, env_of}
use Prim.Native.String

pub record Allowance : Type 0 where
  pub allowed : Bool
  pub remaining : ℕ

-- a counter that has not expired
abbrev pub counts_for : ℕ → String → Counter → Bool
counts_for now key c = str_eq c.key key && ltb now c.expires_at

-- `INCR`: the value of the key, or 0, plus 1
abbrev pub count_after : Option Counter → ℕ
count_after none = 1
count_after (some c) = c.count + 1

-- the counters after the script: a new one expires at the end of the window
abbrev pub counters_after : ℕ → String → ℕ → Option Counter → List Counter → List Counter
counters_after now key window none cs =
    record { key = key; count = 1; expires_at = now + window * 1000 }
    ∷ delete (λ c. str_eq c.key key) cs
counters_after now key window (some _) cs =
    update (counts_for now key) (λ c. record c { count = c.count + 1 }) cs

abbrev pub allowance : ℕ → ℕ → Allowance
allowance limit count =
    if ltb limit count
    then record { allowed = false; remaining = 0 }
    else record { allowed = true; remaining = limit - count }

-- the script returns a number
unfoldable pub consume : ℕ → String → ℕ → ℕ → Action Allowance
consume now name limit window w =
    let key = String.◌++◌ "rl:" name in
    let c = find (counts_for now key) w.counters in
    (
      ok (allowance limit (count_after c)),
      record w { counters = counters_after now key window c w.counters },
    )

pub data RiskLevel : Type 0 where
  low medium high : RiskLevel

-- `x || null` of an optional text, and `!x`
abbrev pub given : Option String → Option String
given none = none
given (some s) = if str_eq s "" then none else some s

-- `ipAddress ?? "unknown"`
abbrev pub or_unknown : Option String → String
or_unknown none = "unknown"
or_unknown (some s) = s

abbrev bot_key : String → String → String → String
bot_key endpoint kind value =
    String.◌++◌ "bot-risk:" (String.◌++◌ endpoint (String.◌++◌ kind value))

abbrev email_risk : ServerEnv → Allowance → Allowance → RiskLevel
email_risk e by_ip by_email =
    if not by_email.allowed
    then high
    else if leb by_email.remaining e.bot_risk_watermark || leb by_ip.remaining e.bot_risk_watermark
    then medium
    else low

-- the part below the test of the address's rate and of the agent
unfoldable pub risk_of_email : ServerEnv → String → Option String → Allowance → Action RiskLevel
unfolding consume
risk_of_email e endpoint none by_ip =
    pure (if leb by_ip.remaining e.bot_risk_watermark then medium else low)
risk_of_email e endpoint (some email) by_ip = do
  by_email ←
      consume (env_of e).now (bot_key endpoint ":email:" email) e.bot_risk_threshold
        e.bot_risk_window_seconds
  pure (email_risk e by_ip by_email)

abbrev has_agent : ServerEnv → Option String → Bool
has_agent e none = false
has_agent e (some s) = not (str_eq s "" || str_eq (e.trim s) "")

unfoldable pub assess_bot_risk_for_login :
    ServerEnv → String → Option String → Option String → Option String → Action RiskLevel
unfolding risk_of_email consume
assess_bot_risk_for_login e endpoint email ip_address user_agent = do
  by_ip ←
      consume (env_of e).now (bot_key endpoint ":ip:" (or_unknown ip_address)) e.bot_risk_threshold
        e.bot_risk_window_seconds
  let rest = risk_of_email e endpoint (given email) by_ip
  if not by_ip.allowed then pure high else (if has_agent e user_agent then rest else pure medium)
