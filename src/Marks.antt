-- ===== src/Marks.antt =====
-- Bookmarks and annotations: libs/reader/domain/src/lib/publication-bookmark.ts and
-- publication-annotation.ts, and the synchronization of bookmarks,
-- libs/sync/core/src/lib/bookmark-sync-service.ts.
pub mod Locator
pub mod Bookmark
pub mod Library
pub mod Documents
pub mod Pull
pub mod Push
pub mod Synchronize
pub mod Annotation
mod Tests
