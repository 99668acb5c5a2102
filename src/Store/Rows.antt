-- ===== src/Store/Rows.antt =====
-- The tables of packages/db/src/schema.ts, a record for a row. A uuid is a number, a timestamp a
-- number of milliseconds, a nullable column an `Option`.
use id_provider.Base.{ℕ, Bool, String, Option, List}
use id_provider.Base.Json.{Json, Fields}

pub record User : Type 0 where
  pub id : ℕ
  pub status : String
  pub deleted_at : Option ℕ
  pub deletion_requested_at : Option ℕ
  pub deletion_due_at : Option ℕ
  pub created_at : ℕ

pub record UserEmail : Type 0 where
  pub id : ℕ
  pub user_id : ℕ
  pub email : String
  pub is_primary : Bool
  pub is_verified : Bool
  pub created_at : ℕ

pub record UserPassword : Type 0 where
  pub user_id : ℕ
  pub password_hash : String
  pub updated_at : ℕ

pub record MfaFactor : Type 0 where
  pub id : ℕ
  pub user_id : ℕ
  pub kind : String
  pub secret : Option String
  pub enabled : Bool
  pub created_at : ℕ

-- A row of `mfa_recovery_codes`.
pub record RecoveryCode : Type 0 where
  pub id : ℕ
  pub user_id : ℕ
  pub batch_id : ℕ
  pub lookup_hash : String
  pub code_hash : String
  pub last_chars : String
  pub used_at : Option ℕ
  pub revoked_at : Option ℕ
  pub created_at : ℕ

pub record ExternalIdentity : Type 0 where
  pub id : ℕ
  pub user_id : ℕ
  pub provider : String
  pub provider_subject : String
  pub email : Option String
  pub is_email_verified : Bool
  pub created_at : ℕ

pub record UserSession : Type 0 where
  pub id : ℕ
  pub user_id : ℕ
  pub access_token_hash : String
  pub refresh_token_hash : String
  pub ip_address : Option String
  pub user_agent : Option String
  pub expires_at : ℕ
  pub refresh_expires_at : ℕ
  pub revoked_at : Option ℕ
  pub last_seen_at : ℕ
  pub created_at : ℕ

pub record LoginAttempt : Type 0 where
  pub id : ℕ
  pub email : String
  pub success : Bool
  pub reason : Option String
  pub ip_address : Option String
  pub created_at : ℕ

-- The columns that `password_reset_tokens` and `email_verification_tokens` share.
pub record OneTimeToken : Type 0 where
  pub id : ℕ
  pub user_id : ℕ
  pub token_hash : String
  pub expires_at : ℕ
  pub consumed_at : Option ℕ
  pub created_at : ℕ

pub record Permission : Type 0 where
  pub id : ℕ
  pub key : String

pub record RolePermission : Type 0 where
  pub role_id : ℕ
  pub permission_id : ℕ

pub record UserRole : Type 0 where
  pub user_id : ℕ
  pub role_id : ℕ

pub record Organization : Type 0 where
  pub id : ℕ
  pub key : String

pub record Group : Type 0 where
  pub id : ℕ
  pub organization_id : ℕ
  pub key : String

pub record GroupMembership : Type 0 where
  pub user_id : ℕ
  pub group_id : ℕ

pub record GroupRole : Type 0 where
  pub group_id : ℕ
  pub role_id : ℕ

pub record Entitlement : Type 0 where
  pub id : ℕ
  pub key : String
  pub enabled : Bool
  pub value : Json
  pub user_id : Option ℕ
  pub group_id : Option ℕ
  pub organization_id : Option ℕ
  pub expires_at : Option ℕ
  pub created_at : ℕ

pub record SecurityEvent : Type 0 where
  pub user_id : Option ℕ
  pub event_type : String
  pub payload : Fields

pub record AuditLog : Type 0 where
  pub id : ℕ
  pub actor_user_id : Option ℕ
  pub action : String
  pub resource_type : String
  pub resource_id : Option String
  pub payload : Fields
  pub prev_hash : Option String
  pub entry_hash : Option String
  pub integrity_version : ℕ
  pub created_at : ℕ

pub record SigningKey : Type 0 where
  pub kid : ℕ
  pub alg : String
  pub private_key_pem : String
  pub public_key_pem : String
  pub is_active : Bool
  pub rotated_from_kid : Option ℕ
  pub rotation_reason : Option String
  pub rotated_by : Option ℕ
  pub created_at : ℕ
  pub expires_at : Option ℕ
  pub revoked_at : Option ℕ

-- The tables, newest row first.
pub record Database : Type 0 where
  pub users : List User
  pub emails : List UserEmail
  pub passwords : List UserPassword
  pub factors : List MfaFactor
  pub recovery_codes : List RecoveryCode
  pub identities : List ExternalIdentity
  pub sessions : List UserSession
  pub attempts : List LoginAttempt
  pub reset_tokens : List OneTimeToken
  pub verification_tokens : List OneTimeToken
  pub permissions : List Permission
  pub role_permissions : List RolePermission
  pub user_roles : List UserRole
  pub organizations : List Organization
  pub groups : List Group
  pub memberships : List GroupMembership
  pub group_roles : List GroupRole
  pub entitlements : List Entitlement
  pub events : List SecurityEvent
  pub audit_logs : List AuditLog
  pub signing_keys : List SigningKey
