-- ===== src/Irc.antt =====
-- src: the IRC server.
pub mod Parse
pub mod Inbox
pub mod Strings
pub mod Types
pub mod Reply
pub mod Utils
pub mod Channel
pub mod Handlers
pub mod Members
pub mod Known
pub mod Rights
pub mod Relay
mod Tests
mod ServerTests
