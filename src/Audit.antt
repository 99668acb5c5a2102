-- ===== src/Audit.antt =====
-- The audit log: `canonicalize`, and `writeAuditLog` of packages/auth-core/src/auth-service.ts,
-- which `createAuditLog` of apps/idp-server/src/modules/audit/audit.repository.ts repeats.
mod Canonical
pub mod Log
pub mod Verify
unfoldable pub use Canonical.*
pub mod Instant
pub mod Stored
pub mod Chain
pub mod Intact
mod Tests
