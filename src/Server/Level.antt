-- ===== src/Server/Level.antt =====
-- What makes the risk of a login low, medium or high
-- (apps/idp-server/src/modules/auth/auth.service.ts).
use id_provider.Base.{
  ℕ, ◌+◌, ◌-◌, ◌*◌, leb, ◌≡◌, refl, Bool, false, ◌&&◌, ◌||◌, String, Option, none, some, has_text,
  if◌then◌else◌, inl, inr, Bool-cases, arith,
}
use id_provider.Store.{Database, UserSession}
use id_provider.Server.Settings.{ServerEnv, env_of}
use id_provider.Server.Rate.{low, medium, high, given}
use id_provider.Server.Risk.{
  count_failed_attempts, find_latest_by_user_id, is_new_agent, travels, level_of, listed_part,
  failure_part, session_part, assess_adaptive_risk,
}

-- the level of a score
levels :
    (listed failed device travel : Bool)
    → level_of (
        (if listed then 70 else 0)
        + (if failed then 35 else 0)
        + ((if device then 30 else 0) + (if travel then 45 else 0)))
      ≡ (if listed || (travel && (device || failed))
          then high
          else if failed || travel
          then medium
          else low)
levels listed failed device travel = ground arith

module _ (e : ServerEnv) (user_id : ℕ) (ip agent : Option String) (d : Database) where
  -- the address is one of the listed
  abbrev pub is_listed : Option String → Bool
  is_listed none = false
  is_listed (some i) = has_text i e.high_risk_ips

  -- logins from the address have failed as often as the threshold, within the window
  abbrev pub has_failures : Option String → Bool
  has_failures none = false
  has_failures (some i) =
      leb e.ip_failure_high_threshold
        (count_failed_attempts i ((env_of e).now - e.ip_failure_window_seconds * 1000) d)

  -- the user has had a session, and none with this agent
  abbrev pub has_new_device : Option UserSession → Bool
  has_new_device none = false
  has_new_device (some s) = is_new_agent user_id (given agent) d

  -- the last session was seen within the window at another address
  abbrev pub has_travelled : Option UserSession → Bool
  has_travelled none = false
  has_travelled (some s) = travels e s (given s.ip_address) (given ip)

  listed_score : (x : Option String) → (listed_part e x).1 ≡ (if is_listed x then 70 else 0)
  listed_score none = refl
  listed_score (some i) = elim (Bool-cases (has_text i e.high_risk_ips)) [
    | inl t ↦ rw t refl
    | inr f ↦ rw f refl
  ]

  failure_score : (x : Option String) → (failure_part e x d).1 ≡ (if has_failures x then 35 else 0)
  failure_score none = refl
  failure_score (some i) = elim (Bool-cases (has_failures (some i))) [
    | inl t ↦ rw t refl
    | inr f ↦ rw f refl
  ]

  session_score :
      (s : Option UserSession)
      → (session_part e user_id (given ip) (given agent) d s).1
        ≡ (if has_new_device s then 30 else 0) + (if has_travelled s then 45 else 0)
  session_score none = refl
  session_score (some s) = elim (Bool-cases (has_new_device (some s))) [
    | inl a ↦ elim (Bool-cases (has_travelled (some s))) [
      | inl b ↦ rw (a, b) refl
      | inr b ↦ rw (a, b) refl
    ]
    | inr a ↦ elim (Bool-cases (has_travelled (some s))) [
      | inl b ↦ rw (a, b) refl
      | inr b ↦ rw (a, b) refl
    ]
  ]

  -- The risk is high exactly for a listed address, or for an impossible travel together with a new
  -- device or with failed logins from the address; otherwise it is medium exactly for an
  -- impossible travel or for failed logins. A new device alone leaves it low.
  pub assess_adaptive_risk_level :
      let latest = find_latest_by_user_id user_id d in
      (assess_adaptive_risk e user_id ip agent d).level ≡ (
        if is_listed (given ip)
          || (has_travelled latest && (has_new_device latest || has_failures (given ip)))
        then high
        else if has_failures (given ip) || has_travelled latest
        then medium
        else low)
  unfolding assess_adaptive_risk
  assess_adaptive_risk_level =
      let latest = find_latest_by_user_id user_id d in
      rw (listed_score (given ip), failure_score (given ip), session_score latest)
        (levels (is_listed (given ip)) (has_failures (given ip)) (has_new_device latest)
          (has_travelled latest))
