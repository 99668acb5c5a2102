-- ===== src/Store/Insert.antt =====
-- Inserts, with the primary keys, the unique constraints and the foreign keys of
-- packages/db/src/schema.ts that they can break. A broken constraint throws, and nothing is written.
use id_provider.Base.{
  ℕ, ◌==◌, Bool, false, not, Option, none, some, List, ◌&&◌, ◌||◌, ◌∷◌, any, str_eq,
}
use id_provider.Store.Rows.{
  Database, User, UserEmail, UserPassword, ExternalIdentity, UserSession, LoginAttempt,
  OneTimeToken, MfaFactor, SecurityEvent, AuditLog,
}
use id_provider.Store.Call.{Action, constrained, modify}

abbrev pub has_user : ℕ → Database → Bool
has_user u d = any (λ r. r.id == u) d.users

-- the foreign key `user_id` has no row
abbrev pub lacks_user : ℕ → Database → Bool
lacks_user u d = not (has_user u d)

abbrev pub same_session : UserSession → UserSession → Bool
same_session s r =
    r.id == s.id
    || (str_eq r.access_token_hash s.access_token_hash
        || str_eq r.refresh_token_hash s.refresh_token_hash)

unfoldable pub insert_session : UserSession → Action (Unit {0})
insert_session s =
    constrained (λ d. any (same_session s) d.sessions) (lacks_user s.user_id)
      (λ d. record d { sessions = s ∷ d.sessions })

unfoldable pub insert_user : User → Action (Unit {0})
insert_user u =
    constrained (λ d. any (λ r. r.id == u.id) d.users) (λ d. false)
      (λ d. record d { users = u ∷ d.users })

abbrev pub same_email : UserEmail → UserEmail → Bool
same_email m r = r.id == m.id || str_eq r.email m.email

unfoldable pub insert_email : UserEmail → Action (Unit {0})
insert_email m =
    constrained (λ d. any (same_email m) d.emails) (lacks_user m.user_id)
      (λ d. record d { emails = m ∷ d.emails })

unfoldable pub insert_password : UserPassword → Action (Unit {0})
insert_password p =
    constrained (λ d. any (λ r. r.user_id == p.user_id) d.passwords) (lacks_user p.user_id)
      (λ d. record d { passwords = p ∷ d.passwords })

abbrev pub same_identity : ExternalIdentity → ExternalIdentity → Bool
same_identity i r =
    r.id == i.id || (str_eq r.provider i.provider && str_eq r.provider_subject i.provider_subject)

unfoldable pub insert_identity : ExternalIdentity → Action (Unit {0})
insert_identity i =
    constrained (λ d. any (same_identity i) d.identities) (lacks_user i.user_id)
      (λ d. record d { identities = i ∷ d.identities })

unfoldable pub insert_factor : MfaFactor → Action (Unit {0})
insert_factor f =
    constrained (λ d. any (λ r. r.id == f.id) d.factors) (lacks_user f.user_id)
      (λ d. record d { factors = f ∷ d.factors })

abbrev pub same_token : OneTimeToken → OneTimeToken → Bool
same_token t r = r.id == t.id || str_eq r.token_hash t.token_hash

unfoldable pub insert_reset_token : OneTimeToken → Action (Unit {0})
insert_reset_token t =
    constrained (λ d. any (same_token t) d.reset_tokens) (lacks_user t.user_id)
      (λ d. record d { reset_tokens = t ∷ d.reset_tokens })

unfoldable pub insert_verification_token : OneTimeToken → Action (Unit {0})
insert_verification_token t =
    constrained (λ d. any (same_token t) d.verification_tokens) (lacks_user t.user_id)
      (λ d. record d { verification_tokens = t ∷ d.verification_tokens })

unfoldable pub insert_attempt : LoginAttempt → Action (Unit {0})
insert_attempt a = modify (λ d. record d { attempts = a ∷ d.attempts })

-- a foreign key that may be null
abbrev pub lacks_nullable_user : Option ℕ → Database → Bool
lacks_nullable_user none d = false
lacks_nullable_user (some user_id) d = lacks_user user_id d

unfoldable pub insert_event : SecurityEvent → Action (Unit {0})
insert_event ev =
    constrained (λ d. false) (lacks_nullable_user ev.user_id)
      (λ d. record d { events = ev ∷ d.events })

-- the row is read off the table in the transaction that writes it
unfoldable pub insert_audit_log : Option ℕ → (List AuditLog → AuditLog) → Action (Unit {0})
insert_audit_log actor_user_id row =
    constrained (λ d. false) (lacks_nullable_user actor_user_id)
      (λ d. record d { audit_logs = row d.audit_logs ∷ d.audit_logs })
