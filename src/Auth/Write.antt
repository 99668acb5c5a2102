-- ===== src/Auth/Write.antt =====
-- The writes of `AuthService` as a step relation on the database: what its methods may do to the
-- tables, whatever the request (packages/auth-core/src/auth-service.ts).
use id_provider.Base.{ℕ, ◌==◌, ◌≡◌, Bool, false, ◌&&◌, String, none, ◌∷◌, any, update, delete}
use id_provider.Store.{
  Database, User, UserEmail, UserPassword, ExternalIdentity, UserSession, LoginAttempt,
  OneTimeToken, MfaFactor, SecurityEvent, lacks_user, same_session, same_email, same_identity,
  same_token,
}
use id_provider.Store.Env.{Env}
use id_provider.Audit.Log.{AuditInput, audit_row}
use id_provider.Auth.Session.{touch, revoke, rotate, is_rotated, rotation_clash}
use id_provider.Auth.Mfa.{is_factor, enable}
use id_provider.Auth.Password.{with_hash, consume}
use id_provider.Auth.Email.{is_primary_of, verify}
use id_provider.Auth.Social.{is_identity}

pub data Write (d : Database) : Database → Type 0 where
  add_session :
      (s : UserSession)
      → s.revoked_at ≡ none
      → any (same_session s) d.sessions ≡ false
      → lacks_user s.user_id d ≡ false
      → Write d (record d { sessions = s ∷ d.sessions })
  touch_session :
      (id now : ℕ)
      → Write d (record d { sessions = update (λ r. r.id == id) (touch now) d.sessions })
  revoke_sessions :
      (p : UserSession → Bool) (now : ℕ)
      → Write d (record d { sessions = update p (revoke now) d.sessions })
  rotate_session :
      (e : Env) (id : ℕ) (hash access_hash refresh_hash : String)
      → rotation_clash id hash access_hash refresh_hash d ≡ false
      → Write d (record d {
        sessions = update (is_rotated id hash) (rotate e access_hash refresh_hash) d.sessions;
      })
  add_user :
      (u : User)
      → any (λ r. r.id == u.id) d.users ≡ false
      → Write d (record d { users = u ∷ d.users })
  add_email :
      (m : UserEmail)
      → any (same_email m) d.emails ≡ false
      → lacks_user m.user_id d ≡ false
      → Write d (record d { emails = m ∷ d.emails })
  verify_emails :
      (user_id : ℕ) → Write d (record d { emails = update (is_primary_of user_id) verify d.emails })
  add_password :
      (p : UserPassword)
      → any (λ r. r.user_id == p.user_id) d.passwords ≡ false
      → lacks_user p.user_id d ≡ false
      → Write d (record d { passwords = p ∷ d.passwords })
  set_password :
      (user_id now : ℕ) (hash : String)
      → Write d (record d {
        passwords = update (λ p. p.user_id == user_id) (with_hash now hash) d.passwords;
      })
  add_factor :
      (f : MfaFactor)
      → any (λ r. r.id == f.id) d.factors ≡ false
      → lacks_user f.user_id d ≡ false
      → Write d (record d { factors = f ∷ d.factors })
  enable_factor :
      (factor_id user_id : ℕ)
      → Write d (record d { factors = update (is_factor factor_id user_id) enable d.factors })
  add_identity :
      (i : ExternalIdentity)
      → any (same_identity i) d.identities ≡ false
      → lacks_user i.user_id d ≡ false
      → Write d (record d { identities = i ∷ d.identities })
  remove_identity :
      (user_id : ℕ) (provider subject : String)
      → Write d (record d {
        identities =
            delete (λ i. i.user_id == user_id && is_identity provider subject i) d.identities;
      })
  add_reset_token :
      (t : OneTimeToken)
      → any (same_token t) d.reset_tokens ≡ false
      → lacks_user t.user_id d ≡ false
      → Write d (record d { reset_tokens = t ∷ d.reset_tokens })
  consume_reset_token :
      (id now : ℕ)
      → Write d (record d { reset_tokens = update (λ t. t.id == id) (consume now) d.reset_tokens })
  add_verification_token :
      (t : OneTimeToken)
      → any (same_token t) d.verification_tokens ≡ false
      → lacks_user t.user_id d ≡ false
      → Write d (record d { verification_tokens = t ∷ d.verification_tokens })
  consume_verification_token :
      (id now : ℕ)
      → Write d (record d {
        verification_tokens = update (λ t. t.id == id) (consume now) d.verification_tokens;
      })
  add_attempt : (a : LoginAttempt) → Write d (record d { attempts = a ∷ d.attempts })
  add_event : (ev : SecurityEvent) → Write d (record d { events = ev ∷ d.events })
  add_audit_log :
      (e : Env) (input : AuditInput) (id : ℕ)
      → Write d (record d { audit_logs = audit_row e input id d.audit_logs ∷ d.audit_logs })

-- any number of writes
pub data Writes (d : Database) : Database → Type 0 where
  here : Writes d d
  next : {d' d'' : Database} → Writes d d' → Write d' d'' → Writes d d''

pub Writes-trans : {d d' d'' : Database} → Writes d d' → Writes d' d'' → Writes d d''
Writes-trans r here = r
Writes-trans r (next s w) = next (Writes-trans r s) w
