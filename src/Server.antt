-- ===== src/Server.antt =====
-- The login of the server (apps/idp-server/src/modules/auth/auth.service.ts): rate limits, the
-- adaptive risk of a request, second factors, the login and one-time tokens.
pub mod Settings
pub mod Rate
pub mod Risk
pub mod Factor
pub mod Login
pub mod Limit
pub mod Level
pub mod Check
pub mod Admission
pub mod Entry
pub mod Confirm
pub mod Spending
mod Tests
mod ConfirmTests
