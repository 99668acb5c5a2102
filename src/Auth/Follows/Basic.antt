-- ===== src/Auth/Follows/Basic.antt =====
-- The helpers of `AuthService` and its methods on sessions make only the writes of `Auth.Write`.
use id_provider.Base.{ℕ, ◌==◌, update, String, Option, none, some, Bool, true, false, ◌≡◌}
use id_provider.Base.Json.{Fields}
use id_provider.Store.{
  SecurityEvent, UserSession, User, UserEmail, UserPassword, ExternalIdentity, MfaFactor,
  OneTimeToken, LoginAttempt, insert_session, insert_user, insert_email, insert_password,
  insert_identity, insert_factor, insert_reset_token, insert_verification_token, insert_attempt,
  insert_event, insert_audit_log, modify,
}
use id_provider.Store.Env.{Env}
use id_provider.Audit.Log.{AuditInput, write_audit_log}
use id_provider.Auth.Event.{notify, write_security_event}
use id_provider.Auth.Session
use id_provider.Auth.Revoke
use id_provider.Auth.Revoke.{revoke_where}
use id_provider.Auth.Write.{Write, here}
use id_provider.Auth.Follows.{
  Follows, follows, Follows-modify, Follows-constrained, Follows-bind, Follows-draw, Follows-gets,
  Follows-pure, Follows-transaction,
}

notify-Follows : (e : Env) (ev : SecurityEvent) → Follows (notify e ev)
unfolding notify
notify-Follows e ev = record { at = λ w. here }

insert_event-Follows : (ev : SecurityEvent) → Follows (insert_event ev)
unfolding insert_event
insert_event-Follows ev = Follows-constrained _ _ _ (λ d _ _. Write.add_event ev)

pub write_security_event-Follows :
    (e : Env) (event_type : String) (user_id : Option ℕ) (payload : Fields)
    → Follows (write_security_event e event_type user_id payload)
unfolding write_security_event
write_security_event-Follows e event_type user_id payload =
    Follows-bind _ _ (insert_event-Follows _) (λ _. notify-Follows e _)

pub write_audit_log-Follows : (e : Env) (input : AuditInput) → Follows (write_audit_log e input)
unfolding write_audit_log insert_audit_log
write_audit_log-Follows e input =
    Follows-bind _ _ Follows-draw
      (λ id. Follows-constrained _ _ _ (λ d _ _. Write.add_audit_log e input id))

pub insert_session-Follows : (s : UserSession) → s.revoked_at ≡ none → Follows (insert_session s)
unfolding insert_session
insert_session-Follows s h = Follows-constrained _ _ _ (λ d. Write.add_session s h)

pub insert_user-Follows : (u : User) → Follows (insert_user u)
unfolding insert_user
insert_user-Follows u = Follows-constrained _ _ _ (λ d c _. Write.add_user u c)

pub insert_email-Follows : (m : UserEmail) → Follows (insert_email m)
unfolding insert_email
insert_email-Follows m = Follows-constrained _ _ _ (λ d. Write.add_email m)

pub insert_password-Follows : (p : UserPassword) → Follows (insert_password p)
unfolding insert_password
insert_password-Follows p = Follows-constrained _ _ _ (λ d. Write.add_password p)

pub insert_identity-Follows : (i : ExternalIdentity) → Follows (insert_identity i)
unfolding insert_identity
insert_identity-Follows i = Follows-constrained _ _ _ (λ d. Write.add_identity i)

pub insert_factor-Follows : (f : MfaFactor) → Follows (insert_factor f)
unfolding insert_factor
insert_factor-Follows f = Follows-constrained _ _ _ (λ d. Write.add_factor f)

pub insert_reset_token-Follows : (t : OneTimeToken) → Follows (insert_reset_token t)
unfolding insert_reset_token
insert_reset_token-Follows t = Follows-constrained _ _ _ (λ d. Write.add_reset_token t)

pub insert_verification_token-Follows : (t : OneTimeToken) → Follows (insert_verification_token t)
unfolding insert_verification_token
insert_verification_token-Follows t =
    Follows-constrained _ _ _ (λ d. Write.add_verification_token t)

pub insert_attempt-Follows : (a : LoginAttempt) → Follows (insert_attempt a)
unfolding insert_attempt
insert_attempt-Follows a = Follows-modify _ (λ d. Write.add_attempt a)

pub revoke_where-Follows : (e : Env) (p : UserSession → Bool) → Follows (revoke_where e p)
revoke_where-Follows e p = Follows-modify _ (λ d. Write.revoke_sessions p e.now)

pub ruleset basic = (
  follows, write_security_event-Follows, write_audit_log-Follows, insert_user-Follows,
  insert_email-Follows, insert_password-Follows, insert_identity-Follows, insert_factor-Follows,
  insert_reset_token-Follows, insert_verification_token-Follows, insert_attempt-Follows,
  revoke_where-Follows,
)

pub create_session-Follows :
    (e : Env) (user_id : ℕ) (ip ua : Option String)
    → Follows (Session.create_session e user_id ip ua)
unfolding Session.create_session
create_session-Follows e user_id ip ua = search (basic, insert_session-Follows)

touch-Follows :
    (id now : ℕ)
    → Follows (
        modify
          (λ d. record d { sessions = update (λ r. r.id == id) (Session.touch now) d.sessions }))
touch-Follows id now = Follows-modify _ (λ d. Write.touch_session id now)

pub authenticate-Follows : (e : Env) (token : String) → Follows (Session.authenticate e token)
unfolding Session.authenticate
authenticate-Follows e token = search (basic, touch-Follows)

write_rotation-Follows :
    (e : Env) (id : ℕ) (hash access_hash refresh_hash : String)
    → Follows (Session.write_rotation e id hash access_hash refresh_hash)
unfolding Session.write_rotation
write_rotation-Follows e id hash access_hash refresh_hash = Follows-bind _ _ (Follows-gets _) λ hit.
    Follows-bind _ _
      (Follows-constrained _ _ _
        (λ d c _. Write.rotate_session e id hash access_hash refresh_hash c))
      (λ _. Follows-pure hit)

refuse_unknown-Follows : (e : Env) (hash : String) → Follows (Session.refuse_unknown e hash)
unfolding Session.refuse_unknown
refuse_unknown-Follows e hash = search basic

refuse_reused-Follows :
    (e : Env) (s : UserSession) (hit : Bool) → Follows (Session.refuse_reused e s hit)
unfolding Session.refuse_reused
refuse_reused-Follows e s true = Follows-pure tt
refuse_reused-Follows e s false =
    Follows-bind _ _ (Follows-modify _ (λ d. Write.revoke_sessions (λ r. r.id == s.id) e.now))
      (λ _. search basic)

rotate_session-Follows :
    (e : Env) (hash : String) (s : UserSession) → Follows (Session.rotate_session e hash s)
unfolding Session.rotate_session
rotate_session-Follows e hash s =
    search (basic, write_rotation-Follows, refuse_reused-Follows) depth 9

found_or_refuse-Follows :
    (e : Env) (hash : String) (o : Option UserSession) → Follows (Session.found_or_refuse e hash o)
unfolding Session.found_or_refuse
found_or_refuse-Follows e hash none = refuse_unknown-Follows e hash
found_or_refuse-Follows e hash (some s) = Follows-pure s

refresh_body-Follows : (e : Env) (hash : String) → Follows (Session.refresh_body e hash)
unfolding Session.refresh_body
refresh_body-Follows e hash = search (basic, rotate_session-Follows, found_or_refuse-Follows)

pub refresh-Follows : (e : Env) (token : String) → Follows (Session.refresh e token)
unfolding Session.refresh
refresh-Follows e token = Follows-transaction _ (refresh_body-Follows e _)

pub logout_by_session-Follows :
    (e : Env) (session_id user_id : ℕ) → Follows (Revoke.logout_by_session e session_id user_id)
unfolding Revoke.logout_by_session
logout_by_session-Follows e session_id user_id = search basic

pub revoke_by_token-Follows : (e : Env) (token : String) → Follows (Revoke.revoke_by_token e token)
unfolding Revoke.revoke_by_token
revoke_by_token-Follows e token = revoke_where-Follows e _

pub revoke_session-Follows :
    (e : Env) (user_id session_id : ℕ) → Follows (Revoke.revoke_session e user_id session_id)
unfolding Revoke.revoke_session
revoke_session-Follows e user_id session_id = search basic

pub revoke_all_sessions-Follows :
    (e : Env) (user_id : ℕ) → Follows (Revoke.revoke_all_sessions e user_id)
unfolding Revoke.revoke_all_sessions
revoke_all_sessions-Follows e user_id = search basic
