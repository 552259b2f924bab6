-- ===== src/Compositor.antt =====
-- src/bridge/compositor.rs: the compositor's end of the connection to its clients. What it calls of the
-- native host is a parameter.
pub mod Server
pub mod Session
pub mod Tests
