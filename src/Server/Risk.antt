-- ===== src/Server/Risk.antt =====
-- `buildSessionUserAgent` and `assessAdaptiveRisk`
-- (apps/idp-server/src/modules/auth/auth.service.ts) with the queries of the session and auth
-- repositories.
use id_provider.Base.{
  ℕ, ◌+◌, ◌-◌, ◌*◌, ◌==◌, ltb, leb, Bool, false, not, ◌&&◌, ◌||◌, String, str_eq, Option, none,
  some, List, [], ◌∷◌, ◌++◌, any, select, length, has_text, if◌then◌else◌,
}
use id_provider.Store.{Database, UserSession, LoginAttempt}
use id_provider.Server.Settings.{ServerEnv, env_of}
use id_provider.Server.Rate.{RiskLevel, low, medium, high, given}
use mathlib.Core.Option
use Prim.Native.String

-- `x?.trim() || null`
abbrev trimmed : ServerEnv → Option String → Option String
trimmed e x = given (Option.map e.trim x)

abbrev agent_with : Option String → Option String → Option String
agent_with agent none = agent
agent_with none (some device) = some (String.◌++◌ "unknown-agent | did:" device)
agent_with (some agent) (some device) = some (String.◌++◌ agent (String.◌++◌ " | did:" device))

unfoldable pub build_session_user_agent : ServerEnv → Option String → Option String → Option String
build_session_user_agent e user_agent device_id =
    agent_with (trimmed e user_agent) (trimmed e device_id)

pub data Factor : Type 0 where
  listed_ip : String → Factor
  failed_attempts : ℕ → Factor
  new_device : Factor
  impossible_travel : String → String → ℕ → Factor

pub record Risk : Type 0 where
  pub level : RiskLevel
  pub score : ℕ
  pub factors : List Factor

-- `countFailedAttemptsByIpSince`: a `since` before 1970 is as good as 1970
abbrev pub is_failure_since : String → ℕ → LoginAttempt → Bool
is_failure_since ip since a =
    not a.success
    && (elim a.ip_address [ none ↦ false | some i ↦ str_eq i ip ] && ltb since a.created_at)

unfoldable pub count_failed_attempts : String → ℕ → Database → ℕ
count_failed_attempts ip since d = length (select (is_failure_since ip since) d.attempts)

-- `orderBy(desc(lastSeenAt), desc(createdAt))`: `a` stands before `b`
abbrev pub seen_later : UserSession → UserSession → Bool
seen_later a b =
    ltb b.last_seen_at a.last_seen_at
    || (b.last_seen_at == a.last_seen_at && ltb b.created_at a.created_at)

abbrev first_seen : List UserSession → Option UserSession
first_seen [] = none
first_seen (x ∷ xs) = elim (first_seen xs) [
  | none ↦ some x
  | some y ↦ some (if seen_later y x then y else x)
]

unfoldable pub find_latest_by_user_id : ℕ → Database → Option UserSession
find_latest_by_user_id user_id d = first_seen (select (λ s. s.user_id == user_id) d.sessions)

abbrev pub is_seen_agent : ℕ → String → UserSession → Bool
is_seen_agent user_id agent s =
    s.user_id == user_id && elim s.user_agent [ none ↦ false | some a ↦ str_eq a agent ]

abbrev pub is_new_agent : ℕ → Option String → Database → Bool
is_new_agent user_id none d = false
is_new_agent user_id (some agent) d = not (any (is_seen_agent user_id agent) d.sessions)

-- what a test adds: its factor, and its score
abbrev pub Part : Type 0
Part = List Factor × ℕ

-- `isIpReputationHigh`, and what it adds
abbrev pub listed_part : ServerEnv → Option String → Part
listed_part e none = ([], 0)
listed_part e (some ip) = if has_text ip e.high_risk_ips then (listed_ip ip ∷ [], 70) else ([], 0)

abbrev pub failure_part : ServerEnv → Option String → Database → Part
failure_part e none d = ([], 0)
failure_part e (some ip) d =
    let since = (env_of e).now - e.ip_failure_window_seconds * 1000 in
    let failed = count_failed_attempts ip since d in
    if leb e.ip_failure_high_threshold failed then (failed_attempts failed ∷ [], 35) else ([], 0)

abbrev pub device_part : ℕ → Option String → Database → Part
device_part user_id agent d =
    if is_new_agent user_id agent d then (new_device ∷ [], 30) else ([], 0)

-- both addresses are given and differ, and the time between is within the window; a session seen
-- after this instant is 0 away
abbrev pub travels : ServerEnv → UserSession → Option String → Option String → Bool
travels e s (some old) (some new) =
    not (str_eq old new)
    && leb ((env_of e).now - s.last_seen_at) (e.travel_window_minutes * 60 * 1000)
travels e s _ _ = false

abbrev pub travel_factor : ServerEnv → UserSession → Option String → Option String → List Factor
travel_factor e s (some old) (some new) =
    impossible_travel old new ((env_of e).now - s.last_seen_at) ∷ []
travel_factor e s _ _ = []

abbrev pub travel_part : ServerEnv → UserSession → Option String → Part
travel_part e s ip =
    if travels e s (given s.ip_address) ip
    then (travel_factor e s (given s.ip_address) ip, 45)
    else ([], 0)

infixl 65 ◌+++◌
abbrev pub ◌+++◌ : Part → Part → Part
(fs, n) +++ (gs, m) = (fs ++ gs, n + m)

abbrev pub session_part :
    ServerEnv → ℕ → Option String → Option String → Database → Option UserSession → Part
session_part e user_id ip agent d none = ([], 0)
session_part e user_id ip agent d (some s) = device_part user_id agent d +++ travel_part e s ip

abbrev pub level_of : ℕ → RiskLevel
level_of score = if leb 70 score then high else if leb 35 score then medium else low

abbrev pub risk_of : Part → Risk
risk_of (factors, score) = record { level = level_of score; score = score; factors = factors }

unfoldable pub assess_adaptive_risk :
    ServerEnv → ℕ → Option String → Option String → Database → Risk
assess_adaptive_risk e user_id ip_address agent d =
    let ip = given ip_address in
    risk_of (
      listed_part e ip
      +++ failure_part e ip d
      +++ session_part e user_id ip (given agent) d (find_latest_by_user_id user_id d))
