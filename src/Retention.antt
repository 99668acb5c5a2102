-- ===== src/Retention.antt =====
-- The data retention job (apps/idp-server/src/jobs/data-retention.ts): the tables that it
-- sweeps, its loop and the job, and what is proved of them.
pub mod Rows
pub mod Loop
pub mod Job
pub mod Chunk
pub mod Sweep
pub mod Pass
pub mod Run
pub mod Turns
pub mod Keeping
pub mod Passes
pub mod Held
mod Tests
