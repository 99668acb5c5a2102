-- ===== src/Access.antt =====
-- Roles, permissions and entitlements: the queries of `AuthService` in
-- packages/auth-core/src/auth-service.ts that read the access-control tables. They write nothing,
-- so each is a function of the database.
pub mod Permission
pub mod Entitlement
pub mod Check
pub mod Authority
pub mod Source
pub mod Precedence
mod Tests
