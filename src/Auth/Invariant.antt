-- ===== src/Auth/Invariant.antt =====
-- The invariant of the account tables: the keys that packages/db/src/schema.ts declares unique are
-- unique, and the foreign keys to `users` have a row. Every write of the service keeps it.
mod Sessions
mod Accounts
pub use Sessions.{is_user, SessionsOk}
pub use Accounts.{AccountsOk, TokensOk, identity_key}
use Sessions.{add_session-SessionsOk, keep-SessionsOk, rotate-SessionsOk, add_user-SessionsOk}
use Accounts.{
  add_user-AccountsOk, add_email-AccountsOk, verify-AccountsOk, add_password-AccountsOk,
  set_password-AccountsOk, add-TokensOk, consume-TokensOk, identity_clash,
}
use id_provider.Base.{refl, List}
use id_provider.Base.Unique.{IsUnique, fresh_of_any, delete-IsUnique}
use id_provider.Store.{Database, World, same_identity}
use id_provider.Store.Env.{Env}
use id_provider.Auth.Session.{touch, revoke}
use id_provider.Auth.Service.{Request, serve_all, serve_all-Writes}
use id_provider.Auth.Write.{Write, Writes, here, next}

pub record IsWellFormed (d : Database) : Type 0 where
  pub sessions : SessionsOk d.users d.sessions
  pub accounts : AccountsOk d.users d.emails d.passwords
  pub resets : TokensOk d.reset_tokens
  pub verifications : TokensOk d.verification_tokens
  pub identities : IsUnique identity_key d.identities

-- the invariant of a database, a part for each group of tables
wf :
    {d : Database}
    → SessionsOk d.users d.sessions
    → AccountsOk d.users d.emails d.passwords
    → TokensOk d.reset_tokens
    → TokensOk d.verification_tokens
    → IsUnique identity_key d.identities
    → IsWellFormed d
wf a b c d i = record { sessions = a; accounts = b; resets = c; verifications = d; identities = i }

-- Each write of the service keeps the invariant.
Write-IsWellFormed : {d d' : Database} → Write d d' → IsWellFormed d → IsWellFormed d'
Write-IsWellFormed {d} (Write.add_session s n c g) h =
    wf (add_session-SessionsOk s d c g h.sessions) h.accounts h.resets h.verifications h.identities
Write-IsWellFormed {d} (Write.touch_session id now) h =
    wf (keep-SessionsOk _ (touch now) d (λ r. refl) (λ r. refl) (λ r. refl) (λ r. refl) h.sessions)
      h.accounts h.resets h.verifications h.identities
Write-IsWellFormed {d} (Write.revoke_sessions p now) h =
    wf (keep-SessionsOk p (revoke now) d (λ r. refl) (λ r. refl) (λ r. refl) (λ r. refl) h.sessions)
      h.accounts h.resets h.verifications h.identities
Write-IsWellFormed {d} (Write.rotate_session e id hash ah rh c) h =
    wf (rotate-SessionsOk e id hash ah rh d c h.sessions) h.accounts h.resets h.verifications
      h.identities
Write-IsWellFormed {d} (Write.add_user u c) h = record {
  sessions = add_user-SessionsOk u d.users d.sessions h.sessions;
  accounts = add_user-AccountsOk u d.users d.emails d.passwords c h.accounts;
  resets = h.resets;
  verifications = h.verifications;
  identities = h.identities;
}
Write-IsWellFormed (Write.add_email m c g) h =
    wf h.sessions (add_email-AccountsOk m c g h.accounts) h.resets h.verifications h.identities
Write-IsWellFormed (Write.verify_emails u) h =
    wf h.sessions (verify-AccountsOk _ h.accounts) h.resets h.verifications h.identities
Write-IsWellFormed (Write.add_password p c g) h =
    wf h.sessions (add_password-AccountsOk p c g h.accounts) h.resets h.verifications h.identities
Write-IsWellFormed (Write.set_password u now x) h =
    wf h.sessions (set_password-AccountsOk _ now x h.accounts) h.resets h.verifications h.identities
Write-IsWellFormed (Write.add_factor f c g) h =
    wf h.sessions h.accounts h.resets h.verifications h.identities
Write-IsWellFormed (Write.enable_factor f u) h =
    wf h.sessions h.accounts h.resets h.verifications h.identities
Write-IsWellFormed {d} (Write.add_identity i c g) h =
    wf h.sessions h.accounts h.resets h.verifications (
      fresh_of_any identity_key (same_identity i) i (identity_clash i) d.identities c,
      h.identities,
    )
Write-IsWellFormed {d} (Write.remove_identity u p s) h =
    wf h.sessions h.accounts h.resets h.verifications
      (delete-IsUnique identity_key _ d.identities h.identities)
Write-IsWellFormed {d} (Write.add_reset_token t c g) h =
    wf h.sessions h.accounts (add-TokensOk t d.reset_tokens c h.resets) h.verifications h.identities
Write-IsWellFormed {d} (Write.consume_reset_token id now) h =
    wf h.sessions h.accounts (consume-TokensOk id now d.reset_tokens h.resets) h.verifications
      h.identities
Write-IsWellFormed {d} (Write.add_verification_token t c g) h =
    wf h.sessions h.accounts h.resets (add-TokensOk t d.verification_tokens c h.verifications)
      h.identities
Write-IsWellFormed {d} (Write.consume_verification_token id now) h =
    wf h.sessions h.accounts h.resets
      (consume-TokensOk id now d.verification_tokens h.verifications) h.identities
Write-IsWellFormed (Write.add_attempt a) h =
    wf h.sessions h.accounts h.resets h.verifications h.identities
Write-IsWellFormed (Write.add_event ev) h =
    wf h.sessions h.accounts h.resets h.verifications h.identities
Write-IsWellFormed (Write.add_audit_log e input id) h =
    wf h.sessions h.accounts h.resets h.verifications h.identities

Writes-IsWellFormed : {d d' : Database} → Writes d d' → IsWellFormed d → IsWellFormed d'
Writes-IsWellFormed here h = h
Writes-IsWellFormed (next r w) h = Write-IsWellFormed w (Writes-IsWellFormed r h)

-- Whatever requests `AuthService` serves, from a well-formed database: ids and token hashes of
-- sessions, addresses, users, passwords, one-time tokens and external identities stay unique, and
-- every session, address and password belongs to a user.
pub serve_all-IsWellFormed :
    (rs : List (Env × Request)) (w : World) → IsWellFormed w.db → IsWellFormed (serve_all rs w).db
serve_all-IsWellFormed rs w h = Writes-IsWellFormed (serve_all-Writes rs w) h
