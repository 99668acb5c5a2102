-- ===== src/Auth/Revoke.antt =====
-- The methods of `AuthService` that revoke sessions: `logoutBySession`, `revokeByToken`,
-- `revokeSession` and `revokeAllSessions`, and `listSessions`
-- (packages/auth-core/src/auth-service.ts).
use id_provider.Base.{
  ℕ, ◌==◌, ltb, Bool, ◌&&◌, ◌||◌, String, str_eq, none, some, List, [], ◌∷◌, select, update,
  is_none, if◌then◌else◌,
}
use id_provider.Base.Json.{str, field, end}
use id_provider.Store.{Database, UserSession, Action, modify, ◌>>◌}
use id_provider.Store.Env.{Env}
use id_provider.Audit.Log.{write_audit_log}
use id_provider.Auth.Event.{hash_token, write_security_event}
use id_provider.Auth.Session.{revoke}

-- `update(userSessions).set({ revokedAt: new Date() }).where(p)`
abbrev pub revoke_where : Env → (UserSession → Bool) → Action (Unit {0})
revoke_where e p = modify (λ d. record d { sessions = update p (revoke e.now) d.sessions })

abbrev pub is_owned : ℕ → ℕ → UserSession → Bool
is_owned session_id user_id r = r.id == session_id && r.user_id == user_id

-- the sessions of a user that are not revoked yet
abbrev pub is_open : ℕ → UserSession → Bool
is_open user_id r = r.user_id == user_id && is_none r.revoked_at

abbrev pub holds_token : String → UserSession → Bool
holds_token hash r =
    is_none r.revoked_at && (str_eq r.access_token_hash hash || str_eq r.refresh_token_hash hash)

unfoldable pub logout_by_session : Env → ℕ → ℕ → Action (Unit {0})
unfolding write_security_event
logout_by_session e session_id user_id = do
  revoke_where e (is_owned session_id user_id)
  write_security_event e "logout.success" (some user_id)
      (field "sessionId" (str (e.uuid_text session_id)) end)

unfoldable pub revoke_by_token : Env → String → Action (Unit {0})
revoke_by_token e token = revoke_where e (holds_token (hash_token e token))

unfoldable pub revoke_session : Env → ℕ → ℕ → Action (Unit {0})
unfolding write_audit_log
revoke_session e user_id session_id = do
  revoke_where e (is_owned session_id user_id)
  write_audit_log e (record {
    actor_user_id = some user_id;
    action = "session.revoke";
    resource_type = "session";
    resource_id = some (e.uuid_text session_id);
    payload = end;
  })

unfoldable pub revoke_all_sessions : Env → ℕ → Action (Unit {0})
unfolding write_audit_log
revoke_all_sessions e user_id = do
  revoke_where e (is_open user_id)
  write_audit_log e (record {
    actor_user_id = some user_id;
    action = "session.revoke_all";
    resource_type = "session";
    resource_id = none;
    payload = end;
  })

-- `orderBy(desc(createdAt))`
abbrev place : UserSession → List UserSession → List UserSession
place s [] = s ∷ []
place s (t ∷ ts) = if ltb s.created_at t.created_at then t ∷ place s ts else s ∷ t ∷ ts

abbrev by_age : List UserSession → List UserSession
by_age [] = []
by_age (s ∷ ss) = place s (by_age ss)

unfoldable pub list_sessions : ℕ → Database → List UserSession
list_sessions user_id d = by_age (select (λ s. s.user_id == user_id) d.sessions)
