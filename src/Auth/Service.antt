-- ===== src/Auth/Service.antt =====
-- The methods of `AuthService` that act on the state, as requests, and a run of requests
-- (packages/auth-core/src/auth-service.ts).
use id_provider.Base.{ℕ, String, Option, List, [], ◌∷◌}
use id_provider.Store.{World}
use id_provider.Store.Env.{Env}
use id_provider.Auth.Session
use id_provider.Auth.Revoke
use id_provider.Auth.Mfa
use id_provider.Auth.Login
use id_provider.Auth.Password
use id_provider.Auth.Email
use id_provider.Auth.Social
use id_provider.Auth.Follows.Basic
use id_provider.Auth.Follows.Account
use id_provider.Auth.Follows.Identity
use id_provider.Auth.Write.{Writes, here, Writes-trans}

pub data Request : Type 0 where
  create_session : ℕ → Option String → Option String → Request
  authenticate refresh revoke_by_token : String → Request
  logout_by_session revoke_session : ℕ → ℕ → Request
  revoke_all_sessions enroll_mfa : ℕ → Request
  signup : Login.SignupInput → Request
  login : Login.LoginInput → Request
  change_password : ℕ → String → String → Request
  request_password_reset request_email_verification confirm_email_verification : String → Request
  confirm_password_reset : String → String → Request
  verify_mfa : ℕ → ℕ → String → Request
  login_with_google : Social.GoogleInput → Request
  link_google_identity unlink_social_identity : ℕ → String → String → Request

-- the state after a request, whether the method returns or throws
pub serve : Env → Request → World → World
serve e (create_session u ip ua) w = (Session.create_session e u ip ua w).1
serve e (authenticate t) w = (Session.authenticate e t w).1
serve e (refresh t) w = (Session.refresh e t w).1
serve e (revoke_by_token t) w = (Revoke.revoke_by_token e t w).1
serve e (logout_by_session s u) w = (Revoke.logout_by_session e s u w).1
serve e (revoke_session u s) w = (Revoke.revoke_session e u s w).1
serve e (revoke_all_sessions u) w = (Revoke.revoke_all_sessions e u w).1
serve e (enroll_mfa u) w = (Mfa.enroll_mfa e u w).1
serve e (signup i) w = (Login.signup e i w).1
serve e (login i) w = (Login.login e i w).1
serve e (change_password u a b) w = (Password.change_password e u a b w).1
serve e (request_password_reset m) w = (Password.request_password_reset e m w).1
serve e (request_email_verification m) w = (Email.request_email_verification e m w).1
serve e (confirm_email_verification t) w = (Email.confirm_email_verification e t w).1
serve e (confirm_password_reset t p) w = (Password.confirm_password_reset e t p w).1
serve e (verify_mfa u f c) w = (Mfa.verify_mfa e u f c w).1
serve e (login_with_google i) w = (Social.login_with_google e i w).1
serve e (link_google_identity u t c) w = (Social.link_google_identity e u t c w).1
serve e (unlink_social_identity u p s) w = (Social.unlink_social_identity e u p s w).1

-- requests one after another, each with the environment of its instant
unfoldable pub serve_all : List (Env × Request) → World → World
unfolding serve
serve_all [] w = w
serve_all ((e, r) ∷ rs) w = serve_all rs (serve e r w)

pub serve-Writes : (e : Env) (r : Request) (w : World) → Writes w.db (serve e r w).db
unfolding serve
serve-Writes e (create_session u ip ua) w = (Basic.create_session-Follows e u ip ua).at w
serve-Writes e (authenticate t) w = (Basic.authenticate-Follows e t).at w
serve-Writes e (refresh t) w = (Basic.refresh-Follows e t).at w
serve-Writes e (revoke_by_token t) w = (Basic.revoke_by_token-Follows e t).at w
serve-Writes e (logout_by_session s u) w = (Basic.logout_by_session-Follows e s u).at w
serve-Writes e (revoke_session u s) w = (Basic.revoke_session-Follows e u s).at w
serve-Writes e (revoke_all_sessions u) w = (Basic.revoke_all_sessions-Follows e u).at w
serve-Writes e (enroll_mfa u) w = (Account.enroll_mfa-Follows e u).at w
serve-Writes e (signup i) w = (Account.signup-Follows e i).at w
serve-Writes e (login i) w = (Account.login-Follows e i).at w
serve-Writes e (change_password u a b) w = (Account.change_password-Follows e u a b).at w
serve-Writes e (request_password_reset m) w = (Account.request_password_reset-Follows e m).at w
serve-Writes e (request_email_verification m) w =
    (Identity.request_email_verification-Follows e m).at w
serve-Writes e (confirm_email_verification t) w =
    (Identity.confirm_email_verification-Follows e t).at w
serve-Writes e (confirm_password_reset t p) w = (Account.confirm_password_reset-Follows e t p).at w
serve-Writes e (verify_mfa u f c) w = (Account.verify_mfa-Follows e u f c).at w
serve-Writes e (login_with_google i) w = (Identity.login_with_google-Follows e i).at w
serve-Writes e (link_google_identity u t c) w = (Identity.link_google_identity-Follows e u t c).at w
serve-Writes e (unlink_social_identity u p s) w =
    (Identity.unlink_social_identity-Follows e u p s).at w

-- Whatever the requests, the service makes only the writes of the step relation.
pub serve_all-Writes : (rs : List (Env × Request)) (w : World) → Writes w.db (serve_all rs w).db
unfolding serve_all
serve_all-Writes [] w = here
serve_all-Writes ((e, r) ∷ rs) w =
    Writes-trans (serve-Writes e r w) (serve_all-Writes rs (serve e r w))
