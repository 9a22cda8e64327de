-- ===== src/LogicalBook.antt =====
-- Logical books: libs/sync/core/src/lib/logical-book-state.ts over the records of
-- libs/reader/domain/src/lib/logical-book.ts.
pub mod Types
pub mod Ancestry
pub mod Clock
pub mod Conflict
pub mod Apply
pub mod Invariant
pub mod Order
pub mod Schema
mod Tests
