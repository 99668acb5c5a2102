-- ===== src/Auth/Follows/Account.antt =====
-- The methods of `AuthService` on accounts, passwords, second factors and identities make only the
-- writes of `Auth.Write`.
use id_provider.Base.{
  ℕ, ◌==◌, String, Option, none, some, Bool, true, false, List, [], ◌∷◌, update, ◌≡◌, refl,
}
use id_provider.Store.{UserEmail, MfaFactor, Failure, Result, ok, err, World, modify, transaction}
use id_provider.Store.Env.{Env}
use id_provider.Auth.Login
use id_provider.Auth.Mfa
use id_provider.Auth.Password
use id_provider.Auth.Login.{SignupInput, LoginInput, LoginRow}
use id_provider.Auth.Write.{Write}
use id_provider.Auth.Follows.{Follows, Follows-modify, Follows-pure, Follows-transaction}
use id_provider.Auth.Follows.Basic.{basic, create_session-Follows}

signup_body-Follows : (e : Env) (input : SignupInput) → Follows (Login.signup_body e input)
unfolding Login.signup_body
signup_body-Follows e input = search basic depth 30

check_factor-Follows :
    (e : Env) (code : String) (o : Option MfaFactor) → Follows (Mfa.check_factor e code o)
unfolding Mfa.check_factor
check_factor-Follows e code none = search basic
check_factor-Follows e code (some f) = search basic

pub assert_valid_totp-Follows :
    (e : Env) (factors : List MfaFactor) (code : Option String) (id : Option ℕ)
    → Follows (Mfa.assert_valid_totp e factors code id)
unfolding Mfa.assert_valid_totp
assert_valid_totp-Follows e factors code id = search (basic, check_factor-Follows)

pub get_me-Follows : (user_id : ℕ) → Follows (Mfa.get_me user_id)
unfolding Mfa.get_me
get_me-Follows user_id = search basic

pub enroll_mfa-Follows : (e : Env) (user_id : ℕ) → Follows (Mfa.enroll_mfa e user_id)
unfolding Mfa.enroll_mfa
enroll_mfa-Follows e user_id = search (basic, get_me-Follows) depth 9

enable-Follows :
    (factor_id user_id : ℕ)
    → Follows (
        modify (λ d. record d {
          factors = update (Mfa.is_factor factor_id user_id) Mfa.enable d.factors;
        }))
enable-Follows factor_id user_id = Follows-modify _ (λ d. Write.enable_factor factor_id user_id)

pub verify_mfa-Follows :
    (e : Env) (user_id factor_id : ℕ) (code : String)
    → Follows (Mfa.verify_mfa e user_id factor_id code)
unfolding Mfa.verify_mfa
verify_mfa-Follows e user_id factor_id code = search (basic, enable-Follows) depth 12

on_error-db :
    {A : Type 0} (h : Failure → Failure) (r : Result A × World) → (Login.on_error h r).1.db ≡ r.1.db
on_error-db h (ok a, w) = refl
on_error-db h (err f, w) = refl

pub signup-Follows : (e : Env) (input : SignupInput) → Follows (Login.signup e input)
unfolding Login.signup
signup-Follows e input = record {
  at = λ w.
      rw (on_error-db (Login.conflict e) (transaction (Login.signup_body e input) w))
        ((Follows-transaction _ (signup_body-Follows e input)).at w);
}

record_attempt-Follows :
    (e : Env) (input : LoginInput) (success : Bool) (reason : String)
    → Follows (Login.record_attempt e input success reason)
unfolding Login.record_attempt
record_attempt-Follows e input success reason = search basic

refuse-Follows :
    {A : Type 0} (e : Env) (input : LoginInput) (reason : String) (f : Failure)
    → Follows (Login.refuse {A = A} e input reason f)
unfolding Login.refuse
refuse-Follows e input reason f = search (basic, record_attempt-Follows)

login_mfa-Follows :
    (e : Env) (input : LoginInput) (user_id : ℕ) (fs : List MfaFactor)
    → Follows (Login.login_mfa e input user_id fs)
unfolding Login.login_mfa
login_mfa-Follows e input user_id [] = Follows-pure false
login_mfa-Follows e input user_id (f ∷ fs) = search (basic, assert_valid_totp-Follows)

show_warning-Follows :
    (e : Env) (input : LoginInput) (user_id : ℕ) (b : Bool)
    → Follows (Login.show_warning e input user_id b)
unfolding Login.show_warning
show_warning-Follows e input user_id true = Follows-pure tt
show_warning-Follows e input user_id false = search basic

complete_login-Follows :
    (e : Env) (input : LoginInput) (user_id : ℕ) (b : Bool)
    → Follows (Login.complete_login e input user_id b)
unfolding Login.complete_login
complete_login-Follows e input user_id b =
    search (basic, create_session-Follows, record_attempt-Follows, show_warning-Follows) depth 9

login_verified-Follows :
    (e : Env) (input : LoginInput) (user_id : ℕ) → Follows (Login.login_verified e input user_id)
unfolding Login.login_verified
login_verified-Follows e input user_id = search (basic, login_mfa-Follows, complete_login-Follows)

login_found-Follows :
    (e : Env) (input : LoginInput) (row : LoginRow) → Follows (Login.login_found e input row)
unfolding Login.login_found
login_found-Follows e input row = search (basic, refuse-Follows, login_verified-Follows)

login_from-Follows :
    (e : Env) (input : LoginInput) (o : Option LoginRow) → Follows (Login.login_from e input o)
unfolding Login.login_from
login_from-Follows e input none = refuse-Follows e input _ _
login_from-Follows e input (some row) = login_found-Follows e input row

pub login-Follows : (e : Env) (input : LoginInput) → Follows (Login.login e input)
unfolding Login.login
login-Follows e input = search (basic, login_from-Follows)

verify_current_password-Follows :
    (e : Env) (user_id : ℕ) (password : String)
    → Follows (Password.verify_current_password e user_id password)
unfolding Password.verify_current_password
verify_current_password-Follows e user_id password = search basic

set_password-Follows :
    (e : Env) (user_id : ℕ) (hash : String) → Follows (Password.set_password e user_id hash)
unfolding Password.set_password
set_password-Follows e user_id hash = Follows-modify _ (λ d. Write.set_password user_id e.now hash)

pub change_password-Follows :
    (e : Env) (user_id : ℕ) (current new : String)
    → Follows (Password.change_password e user_id current new)
unfolding Password.change_password
change_password-Follows e user_id current new =
    search (basic, verify_current_password-Follows, set_password-Follows) depth 12

issue_reset-Follows : (e : Env) (o : Option UserEmail) → Follows (Password.issue_reset e o)
unfolding Password.issue_reset
issue_reset-Follows e none = Follows-pure none
issue_reset-Follows e (some target) = search basic depth 9

pub request_password_reset-Follows :
    (e : Env) (email : String) → Follows (Password.request_password_reset e email)
unfolding Password.request_password_reset
request_password_reset-Follows e email = search (basic, issue_reset-Follows)

consume_reset-Follows :
    (id now : ℕ)
    → Follows (
        modify (λ d. record d {
          reset_tokens = update (λ t. t.id == id) (Password.consume now) d.reset_tokens;
        }))
consume_reset-Follows id now = Follows-modify _ (λ d. Write.consume_reset_token id now)

confirm_reset_body-Follows :
    (e : Env) (hash new : String) → Follows (Password.confirm_reset_body e hash new)
unfolding Password.confirm_reset_body
confirm_reset_body-Follows e hash new =
    search (basic, set_password-Follows, consume_reset-Follows) depth 12

pub confirm_password_reset-Follows :
    (e : Env) (token new : String) → Follows (Password.confirm_password_reset e token new)
unfolding Password.confirm_password_reset
confirm_password_reset-Follows e token new =
    Follows-transaction _ (confirm_reset_body-Follows e _ new)
