-- ===== src/Auth/Social.antt =====
-- External identities: `authenticateSocialIdentity`, `loginWithGoogle`, `linkGoogleIdentity` and
-- `unlinkSocialIdentity` (packages/auth-core/src/auth-service.ts).
use id_provider.Base.{
  ℕ, ◌==◌, Bool, true, false, not, ◌&&◌, String, str_eq, Option, none, some, List, [], ◌∷◌, find,
  any, delete,
}
use id_provider.Base.Json.{bool, str, field, end}
use id_provider.Store.{
  Database, UserEmail, ExternalIdentity, MfaFactor, Action, api, fault, draw, modify, gets, pure,
  raise_if, or_raise, transaction, insert_user, insert_email, insert_identity, ◌>>=◌, ◌>>◌,
}
use id_provider.Store.Env.{Env}
use id_provider.Audit.Log.{write_audit_log}
use id_provider.Auth.Event.{write_security_event}
use id_provider.Auth.Session.{TokenBundle, create_session}
use id_provider.Auth.Mfa.{enabled_factors, assert_valid_totp, given, get_me}
use id_provider.Auth.Login.{nullable}
use Prim.Native.String

infixr 65 ◌+++◌
abbrev ◌+++◌ : String → String → String
a +++ b = String.◌++◌ a b

pub record SocialInput : Type 0 where
  pub provider : String
  pub provider_subject : String
  pub email : String
  pub mfa_code : Option String
  pub mfa_factor_id : Option ℕ
  pub ip_address : Option String
  pub user_agent : Option String

abbrev pub is_identity : String → String → ExternalIdentity → Bool
is_identity provider subject i = str_eq i.provider provider && str_eq i.provider_subject subject

-- `insert(externalIdentities)` for the account
unfoldable pub link : Env → SocialInput → ℕ → Action (Unit {0})
unfolding insert_identity
link e input user_id = do
  id ← draw
  insert_identity (record {
    id = e.random_uuid id;
    user_id = user_id;
    provider = input.provider;
    provider_subject = input.provider_subject;
    email = some input.email;
    is_email_verified = true;
    created_at = e.now;
  })

-- step 3: a new account
unfoldable pub social_signup : Env → SocialInput → Action ℕ
unfolding insert_user insert_email link write_security_event
social_signup e input = do
  n ← draw
  let user_id = e.random_uuid n
  insert_user (record {
    id = user_id;
    status = "active";
    deleted_at = none;
    deletion_requested_at = none;
    deletion_due_at = none;
    created_at = e.now;
  })
  email_id ← draw
  insert_email (record {
    id = e.random_uuid email_id;
    user_id = user_id;
    email = input.email;
    is_primary = true;
    is_verified = true;
    created_at = e.now;
  })
  link e input user_id
  write_security_event e ("signup." +++ input.provider +++ ".created") (some user_id)
      (field "email" (str input.email) (field "ipAddress" (nullable input.ip_address) end))
  pure user_id

-- steps 2 and 3: an account with the same primary email, or a new one
unfoldable pub link_by_email : Env → SocialInput → Option UserEmail → Action ℕ
unfolding link social_signup
link_by_email e input none = social_signup e input
link_by_email e input (some m) = do link e input m.user_id; pure m.user_id

-- `if (existingIdentity[0])`
unfoldable pub account_of : Env → SocialInput → Option ExternalIdentity → Action ℕ
unfolding link_by_email
account_of e input (some i) = pure i.user_id
account_of e input none = do
  existing ← gets (λ d. find (λ m. str_eq m.email input.email && m.is_primary) d.emails)
  link_by_email e input existing

-- steps 1 to 3: the account of the identity
unfoldable pub social_account : Env → SocialInput → Action ℕ
unfolding account_of
social_account e input = do
  existing ← gets (λ d. find (is_identity input.provider input.provider_subject) d.identities)
  account_of e input existing

-- `hasLocalPassword`
abbrev pub has_local_password : ℕ → Database → Bool
has_local_password user_id d = any (λ p. p.user_id == user_id) d.passwords

abbrev pub non_empty : {A : Type 0} → List A → Bool
non_empty [] = false
non_empty (_ ∷ _) = true

-- the second factor, which only an account with a password is asked for
unfoldable pub social_mfa : Env → SocialInput → ℕ → Bool → List MfaFactor → Action (Unit {0})
unfolding assert_valid_totp write_security_event
social_mfa e input user_id false factors = pure tt
social_mfa e input user_id true [] = pure tt
social_mfa e input user_id true (f ∷ fs) = do
  factor_id ← assert_valid_totp e (f ∷ fs) input.mfa_code input.mfa_factor_id
  write_security_event e ("mfa." +++ input.provider +++ ".login_verified") (some user_id)
      (field "factorId" (str (e.uuid_text factor_id)) end)

pub record SocialLogin : Type 0 where
  pub user_id : ℕ
  pub mfa_enabled : Bool
  pub tokens : TokenBundle

unfoldable pub authenticate_social_identity : Env → SocialInput → Action SocialLogin
unfolding social_account social_mfa create_session write_security_event enabled_factors
authenticate_social_identity e input = do
  user_id ← social_account e input
  factors ← gets (enabled_factors user_id)
  social_mfa e input user_id (← gets (has_local_password user_id)) factors
  tokens ← create_session e user_id input.ip_address input.user_agent
  write_security_event e ("login." +++ input.provider +++ ".success") (some user_id) (
      field "email" (str input.email) (
        field "ipAddress" (nullable input.ip_address)
          (field "mfaEnabled" (bool (non_empty factors)) end)))
  pure (record { user_id = user_id; mfa_enabled = non_empty factors; tokens = tokens })

-- the payload of a token that Google has signed for this client, with a verified email
pub record GoogleIdentity : Type 0 where
  pub subject : String
  pub email : String

unfoldable pub google_identity : Env → String → String → Action GoogleIdentity
google_identity e id_token client_id = do
  ticket ← or_raise (e.verify_id_token id_token client_id) (fault "verifyIdToken")
  payload ← or_raise ticket (api 400 "invalid_google_token")
  raise_if (str_eq payload.sub "") (api 400 "invalid_google_token")
  email ← or_raise (given payload.email) (api 400 "invalid_google_token")
  raise_if (not payload.email_verified) (api 400 "google_email_not_verified")
  pure (record { subject = payload.sub; email = e.lower email })

pub record GoogleInput : Type 0 where
  pub id_token : String
  pub client_id : String
  pub mfa_code : Option String
  pub mfa_factor_id : Option ℕ
  pub ip_address : Option String
  pub user_agent : Option String

abbrev pub google_input : GoogleInput → GoogleIdentity → SocialInput
google_input input g = record {
  provider = "google";
  provider_subject = g.subject;
  email = g.email;
  mfa_code = input.mfa_code;
  mfa_factor_id = input.mfa_factor_id;
  ip_address = input.ip_address;
  user_agent = input.user_agent;
}

unfoldable pub login_with_google : Env → GoogleInput → Action SocialLogin
unfolding google_identity transaction authenticate_social_identity
login_with_google e input = do
  g ← google_identity e input.id_token input.client_id
  transaction (authenticate_social_identity e (google_input input g))

-- the handler that `linkGoogleIdentity` runs in a transaction
unfoldable pub link_google_body : Env → ℕ → GoogleIdentity → Action (Unit {0})
unfolding insert_identity write_security_event write_audit_log
link_google_body e user_id g = do
  id ← draw
  insert_identity (record {
    id = e.random_uuid id;
    user_id = user_id;
    provider = "google";
    provider_subject = g.subject;
    email = some g.email;
    is_email_verified = true;
    created_at = e.now;
  })
  write_security_event e "identity.google.linked" (some user_id)
      (field "providerSubject" (str g.subject) (field "email" (str g.email) end))
  write_audit_log e (record {
    actor_user_id = some user_id;
    action = "identity.google.link";
    resource_type = "external_identity";
    resource_id = some g.subject;
    payload = field "email" (str g.email) end;
  })

-- `if (mapped)`
unfoldable pub link_unless_mapped :
    Env → ℕ → GoogleIdentity → Option ExternalIdentity → Action (Unit {0})
unfolding transaction link_google_body
link_unless_mapped e user_id g none = transaction (link_google_body e user_id g)
link_unless_mapped e user_id g (some i) =
    raise_if (not (i.user_id == user_id)) (api 409 "google_identity_in_use")

unfoldable pub link_google_identity : Env → ℕ → String → String → Action (Unit {0})
unfolding google_identity get_me link_unless_mapped
link_google_identity e user_id id_token client_id = do
  g ← google_identity e id_token client_id
  me ← get_me user_id
  raise_if (not (str_eq me.email g.email)) (api 400 "email_mismatch")
  existing ← gets (λ d. find (is_identity "google" g.subject) d.identities)
  link_unless_mapped e user_id g existing

-- the handler that `unlinkSocialIdentity` runs in a transaction
unfoldable pub unlink_body : Env → ℕ → String → String → Action (Unit {0})
unfolding write_security_event write_audit_log
unlink_body e user_id provider subject = do
  modify (λ d. record d {
    identities = delete (λ i. i.user_id == user_id && is_identity provider subject i) d.identities;
  })
  write_security_event e ("identity." +++ provider +++ ".unlinked") (some user_id)
      (field "providerSubject" (str subject) end)
  write_audit_log e (record {
    actor_user_id = some user_id;
    action = "identity." +++ provider +++ ".unlink";
    resource_type = "external_identity";
    resource_id = some subject;
    payload = end;
  })

unfoldable pub unlink_social_identity : Env → ℕ → String → String → Action (Unit {0})
unfolding transaction unlink_body
unlink_social_identity e user_id provider subject =
    transaction (unlink_body e user_id provider subject)
