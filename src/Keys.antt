-- ===== src/Keys.antt =====
-- The signing keys: `KeyStoreService` (packages/auth-core/src/key-store-service.ts).
pub mod Rotate
pub mod Publish
pub mod Replacement
mod Tests
