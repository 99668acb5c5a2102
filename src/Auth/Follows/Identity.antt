-- ===== src/Auth/Follows/Identity.antt =====
-- The methods of `AuthService` on email addresses and external identities make only the writes of
-- `Auth.Write`.
use id_provider.Base.{
  ℕ, ◌==◌, ◌&&◌, String, Option, none, some, Bool, true, false, List, [], ◌∷◌, update, delete,
}
use id_provider.Store.{UserEmail, ExternalIdentity, MfaFactor, modify}
use id_provider.Store.Env.{Env}
use id_provider.Auth.Email
use id_provider.Auth.Password
use id_provider.Auth.Social
use id_provider.Auth.Social.{SocialInput, GoogleInput, GoogleIdentity}
use id_provider.Auth.Write.{Write}
use id_provider.Auth.Follows.{Follows, Follows-modify, Follows-pure, Follows-transaction}
use id_provider.Auth.Follows.Basic.{basic, create_session-Follows}
use id_provider.Auth.Follows.Account.{assert_valid_totp-Follows, get_me-Follows}

issue_verification-Follows :
    (e : Env) (o : Option UserEmail) → Follows (Email.issue_verification e o)
unfolding Email.issue_verification
issue_verification-Follows e none = Follows-pure none
issue_verification-Follows e (some target) = search basic depth 11

pub request_email_verification-Follows :
    (e : Env) (email : String) → Follows (Email.request_email_verification e email)
unfolding Email.request_email_verification
request_email_verification-Follows e email = search (basic, issue_verification-Follows)

verify-Follows :
    (user_id : ℕ)
    → Follows (
        modify
          (λ d. record d { emails = update (Email.is_primary_of user_id) Email.verify d.emails }))
verify-Follows user_id = Follows-modify _ (λ d. Write.verify_emails user_id)

consume_verification-Follows :
    (id now : ℕ)
    → Follows (
        modify (λ d. record d {
          verification_tokens =
              update (λ t. t.id == id) (Password.consume now) d.verification_tokens;
        }))
consume_verification-Follows id now =
    Follows-modify _ (λ d. Write.consume_verification_token id now)

confirm_email_body-Follows : (e : Env) (hash : String) → Follows (Email.confirm_email_body e hash)
unfolding Email.confirm_email_body
confirm_email_body-Follows e hash =
    search (basic, verify-Follows, consume_verification-Follows) depth 9

pub confirm_email_verification-Follows :
    (e : Env) (token : String) → Follows (Email.confirm_email_verification e token)
unfolding Email.confirm_email_verification
confirm_email_verification-Follows e token = Follows-transaction _ (confirm_email_body-Follows e _)

link-Follows : (e : Env) (input : SocialInput) (user_id : ℕ) → Follows (Social.link e input user_id)
unfolding Social.link
link-Follows e input user_id = search basic

social_signup-Follows : (e : Env) (input : SocialInput) → Follows (Social.social_signup e input)
unfolding Social.social_signup
social_signup-Follows e input = search (basic, link-Follows) depth 12

link_by_email-Follows :
    (e : Env) (input : SocialInput) (o : Option UserEmail)
    → Follows (Social.link_by_email e input o)
unfolding Social.link_by_email
link_by_email-Follows e input none = social_signup-Follows e input
link_by_email-Follows e input (some m) = search (basic, link-Follows)

account_of-Follows :
    (e : Env) (input : SocialInput) (o : Option ExternalIdentity)
    → Follows (Social.account_of e input o)
unfolding Social.account_of
account_of-Follows e input none = search (basic, link_by_email-Follows)
account_of-Follows e input (some i) = Follows-pure i.user_id

social_account-Follows : (e : Env) (input : SocialInput) → Follows (Social.social_account e input)
unfolding Social.social_account
social_account-Follows e input = search (basic, account_of-Follows)

social_mfa-Follows :
    (e : Env) (input : SocialInput) (user_id : ℕ) (b : Bool) (fs : List MfaFactor)
    → Follows (Social.social_mfa e input user_id b fs)
unfolding Social.social_mfa
social_mfa-Follows e input user_id false fs = Follows-pure tt
social_mfa-Follows e input user_id true [] = Follows-pure tt
social_mfa-Follows e input user_id true (f ∷ fs) = search (basic, assert_valid_totp-Follows)

authenticate_social_identity-Follows :
    (e : Env) (input : SocialInput) → Follows (Social.authenticate_social_identity e input)
unfolding Social.authenticate_social_identity
authenticate_social_identity-Follows e input =
    search (basic, social_account-Follows, social_mfa-Follows, create_session-Follows) depth 12

google_identity-Follows :
    (e : Env) (id_token client_id : String) → Follows (Social.google_identity e id_token client_id)
unfolding Social.google_identity
google_identity-Follows e id_token client_id = search basic depth 9

pub login_with_google-Follows :
    (e : Env) (input : GoogleInput) → Follows (Social.login_with_google e input)
unfolding Social.login_with_google
login_with_google-Follows e input =
    search (basic, google_identity-Follows, authenticate_social_identity-Follows)

link_google_body-Follows :
    (e : Env) (user_id : ℕ) (g : GoogleIdentity) → Follows (Social.link_google_body e user_id g)
unfolding Social.link_google_body
link_google_body-Follows e user_id g = search basic depth 9

link_unless_mapped-Follows :
    (e : Env) (user_id : ℕ) (g : GoogleIdentity) (o : Option ExternalIdentity)
    → Follows (Social.link_unless_mapped e user_id g o)
unfolding Social.link_unless_mapped
link_unless_mapped-Follows e user_id g none =
    Follows-transaction _ (link_google_body-Follows e user_id g)
link_unless_mapped-Follows e user_id g (some i) = search basic

pub link_google_identity-Follows :
    (e : Env) (user_id : ℕ) (id_token client_id : String)
    → Follows (Social.link_google_identity e user_id id_token client_id)
unfolding Social.link_google_identity
link_google_identity-Follows e user_id id_token client_id =
    search (basic, google_identity-Follows, get_me-Follows, link_unless_mapped-Follows) depth 9

remove-Follows :
    (user_id : ℕ) (provider subject : String)
    → Follows (
        modify (λ d. record d {
          identities =
              delete
                (λ i. i.user_id == user_id && Social.is_identity provider subject i)
                d.identities;
        }))
remove-Follows user_id provider subject =
    Follows-modify _ (λ d. Write.remove_identity user_id provider subject)

unlink_body-Follows :
    (e : Env) (user_id : ℕ) (provider subject : String)
    → Follows (Social.unlink_body e user_id provider subject)
unfolding Social.unlink_body
unlink_body-Follows e user_id provider subject = search (basic, remove-Follows)

pub unlink_social_identity-Follows :
    (e : Env) (user_id : ℕ) (provider subject : String)
    → Follows (Social.unlink_social_identity e user_id provider subject)
unfolding Social.unlink_social_identity
unlink_social_identity-Follows e user_id provider subject =
    Follows-transaction _ (unlink_body-Follows e user_id provider subject)
