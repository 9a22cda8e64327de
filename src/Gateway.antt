-- ===== src/Gateway.antt =====
-- Provider sessions of the synchronization gateway: apps/sync-gateway/src/session-store.ts, and the
-- hand-off of an authorization to the native app: apps/sync-gateway/src/native-handoff.ts.
pub mod Runtime
pub mod Cipher
pub mod Sessions
pub mod Memory
pub mod File
pub mod Lifetimes
pub mod Rotation
pub mod Requests
pub mod Handoff
pub mod Redemption
pub mod Issued
pub mod Store
pub mod Refinement
mod Tests
