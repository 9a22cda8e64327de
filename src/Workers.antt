-- ===== src/Workers.antt =====
-- The workers of a synchronization pass: libs/sync/core/src/lib/change-aware-sync-worker.ts and
-- library-sync-coordinator.ts.
pub mod Types
pub mod Revisions
pub mod ChangeAware
pub mod Checkpoints
pub mod Continuation
pub mod Confirmed
pub mod Coordinator
pub mod Order
pub mod Totals
mod Tests
