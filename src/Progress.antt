-- ===== src/Progress.antt =====
-- Reading progress: libs/sync/core/src/lib/progress-sync-service.ts with progress-paths.ts and
-- progress-merge.ts, on the records of libs/reader/domain/src/lib/publication.ts.
pub mod Documents
pub mod Push
pub mod Termination
pub mod Merge
mod Tests
