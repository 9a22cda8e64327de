-- ===== src/AutoSync.antt =====
-- The automatic scheduler of libs/sync/core/src/lib/auto-sync-scheduler.ts.
pub mod State
pub mod Backoff
pub mod Requests
pub mod Passes
pub mod Lifecycle
pub mod Invariant
pub mod Wakeups
pub mod Limit
pub mod Release
mod Tests
