-- ===== src/Irc/Handlers.antt =====
-- src/handlers.c.
pub mod Info
pub mod Register
pub mod Talk
pub mod Rooms
pub mod Modes
pub mod Queries
pub mod Dispatch
