-- ===== src/Preferences.antt =====
-- The synchronized reader preferences of libs/reader/domain/src/lib/reader-preference-sync-state.ts
-- and reader-preferences.ts.
pub mod Values
pub mod State
pub mod Register
pub mod Laws
pub mod Merge
mod Tests
