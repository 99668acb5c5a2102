-- ===== src/Store.antt =====
-- The database: the tables of packages/db/src/schema.ts, the state that a service acts on, and
-- the writes that the schema's constraints guard.
mod Rows
mod Call
mod Insert
pub mod Env
pub mod Laws
pub use Rows.*
unfoldable pub use Call.*
unfoldable pub use Insert.*
pub mod Sample
