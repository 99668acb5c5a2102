-- ===== src/Store/Sample.antt =====
-- Concrete parameters and an empty database, for the tests.
use id_provider.Base.{ℕ, zero, suc, true, String, str_eq, some, none, []}
use id_provider.Store.Rows.{Database}
use id_provider.Store.Env.{Env}
use Prim.Native.String

-- the n-th random text
abbrev pub tally : ℕ → String
tally zero = ""
tally (suc n) = String.◌++◌ "x" (tally n)

abbrev pub env : Env
env = record {
  now = 1000;
  access_token_ttl_seconds = 900;
  refresh_token_ttl_seconds = 86400;
  mfa_issuer = "idp";
  on_security_event = λ ev. none;
  unique_violation_code = none;
  random_uuid = λ n. suc n;
  random_text = tally;
  sha256_hex = λ s. s;
  uuid_text = tally;
  iso_text = λ n. "1970-01-01T00:00:01.000Z";
  argon2_hash = λ n s. s;
  argon2_verify = str_eq;
  totp_check = str_eq;
  keyuri = λ a b c. c;
  verify_id_token =
      λ t c. some (some (record { sub = t; email = some "a@x.org"; email_verified = true }));
  lower = λ s. s;
  quote = λ s. s;
  number_text = tally;
  locale_le = λ a b. true;
}

abbrev pub empty_database : Database
empty_database = record {
  users = [];
  emails = [];
  passwords = [];
  factors = [];
  recovery_codes = [];
  identities = [];
  sessions = [];
  attempts = [];
  reset_tokens = [];
  verification_tokens = [];
  permissions = [];
  role_permissions = [];
  user_roles = [];
  organizations = [];
  groups = [];
  memberships = [];
  group_roles = [];
  entitlements = [];
  events = [];
  audit_logs = [];
  signing_keys = [];
}
