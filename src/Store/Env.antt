-- ===== src/Store/Env.antt =====
-- What a service call takes from outside the repository: the options that its class is built
-- with, the instant at which it runs, random values, and the packages that it calls.
use id_provider.Base.{ℕ, Bool, String, Option}
use id_provider.Store.Rows.{SecurityEvent}
use id_provider.Store.Call.{Failure}

-- The payload of a verified Google id token (google-auth-library).
pub record GooglePayload : Type 0 where
  pub sub : String
  pub email : Option String
  pub email_verified : Bool

pub record Env : Type 0 where
  -- the instant of the call, in milliseconds: `new Date()`, `Date.now()`
  pub now : ℕ
  -- `AuthServiceOptions`
  pub access_token_ttl_seconds : ℕ
  pub refresh_token_ttl_seconds : ℕ
  pub mfa_issuer : String
  -- what the listener `onSecurityEvent` throws, if it does; no listener throws nothing
  pub on_security_event : SecurityEvent → Option Failure
  -- drizzle-orm: the property `code` of the error for a broken unique constraint
  pub unique_violation_code : Option String
  -- node:crypto: the n-th random value, as a uuid and as base64url text, and the digest
  pub random_uuid : ℕ → ℕ
  pub random_text : ℕ → String
  pub sha256_hex : String → String
  -- the text of a uuid
  pub uuid_text : ℕ → String
  -- `toISOString`
  pub iso_text : ℕ → String
  -- argon2: the hash with the n-th random salt, and its test
  pub argon2_hash : ℕ → String → String
  pub argon2_verify : String → String → Bool
  -- otplib: a code against a secret at this instant, and the provisioning URI
  pub totp_check : String → String → Bool
  pub keyuri : String → String → String → String
  -- google-auth-library: `none` if `verifyIdToken` throws; the payload may be absent
  pub verify_id_token : String → String → Option (Option GooglePayload)
  -- `toLowerCase`
  pub lower : String → String
  -- `JSON.stringify` of a text
  pub quote : String → String
  -- `JSON.stringify` of a number
  pub number_text : ℕ → String
  -- the order of keys by `localeCompare`
  pub locale_le : String → String → Bool

-- the environment at another instant
abbrev pub at_time : Env → ℕ → Env
at_time e now = record e { now = now }
