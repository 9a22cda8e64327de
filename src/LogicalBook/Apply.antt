-- ===== src/LogicalBook/Apply.antt =====
-- `applyChange` of logical-book-state.ts, one function for each of its loops.
pub mod Books
pub mod Effects
pub mod Change
