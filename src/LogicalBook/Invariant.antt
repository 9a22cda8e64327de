-- ===== src/LogicalBook/Invariant.antt =====
-- What holds of the state of the logical library between two changes.
pub mod Books
pub mod Variants
pub mod Change
