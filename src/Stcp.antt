-- ===== src/Stcp.antt =====
-- stcp: the reliable transport protocol.
pub mod Types
pub mod Window
pub mod Rto
pub mod Recv
pub mod Loop
pub mod Open
mod Tests
