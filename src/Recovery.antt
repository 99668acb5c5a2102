-- ===== src/Recovery.antt =====
-- Recovery codes for a lost second factor (apps/idp-server/src/modules/mfa): their text, the table
-- and the service, and what is proved of them.
pub mod Code
pub mod Batch
pub mod Service
pub mod Format
pub mod Generation
pub mod Recording
pub mod Spent
pub mod Acceptance
pub mod Insertion
pub mod Drawing
pub mod Renewal
pub mod Validity
mod Tests
