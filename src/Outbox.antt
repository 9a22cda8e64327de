-- ===== src/Outbox.antt =====
-- The journal of operations that wait to be synchronized, and the outbox of logical changes that it is
-- shown with: libs/sync/git/src/lib/indexed-db-operation-journal.ts, the outbox of
-- libs/library/data-access/src/lib/browser-library-repository.ts, and
-- libs/sync/core/src/lib/logical-book-outbox-journal.ts.
pub mod Journal
pub mod Pending
pub mod Appended
pub mod Handed
mod Tests
