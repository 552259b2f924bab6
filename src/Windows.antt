-- ===== src/Windows.antt =====
-- src/frameworks/appkit.rs and src/bridge/swizzle.rs: windows, their table, and their events.
pub mod Table
pub mod Handlers
pub mod Sync
pub mod Install
pub mod Tests
