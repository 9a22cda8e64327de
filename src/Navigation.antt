-- ===== src/Navigation.antt =====
-- The reader's input of libs/reader/domain/src/lib/reader-navigation.ts.
pub mod Events
pub mod Keyboard
pub mod Pointer
pub mod Laws
mod Tests
