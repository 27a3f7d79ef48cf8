-- ===== src/Registry.antt =====
-- src/server/conversation-registry.ts: which live conversations the server owns, and how many.
pub mod Records
pub mod Capacity
pub mod Steps
pub mod Counts
pub mod Bounds
pub mod Apart
pub mod Writers
pub mod Selection
pub mod Admission
mod Tests
