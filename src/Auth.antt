-- ===== src/Auth.antt =====
-- `AuthService` (packages/auth-core/src/auth-service.ts): a module for each group of its methods.
pub mod Event
pub mod Session
pub mod Revoke
pub mod Mfa
pub mod Login
pub mod Password
pub mod Email
pub mod Social
pub mod Write
pub mod Follows
pub mod Service
pub mod Invariant
pub mod Revocation
pub mod Creation
pub mod Rotation
pub mod Credentials
pub mod Tokens
pub mod Admission
pub mod Introspection
pub mod Enrollment
mod Tests
