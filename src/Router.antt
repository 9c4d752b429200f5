-- ===== src/Router.antt =====
-- stub_sr: the software router.
pub mod Bytes
pub mod Off
pub mod Checksum
pub mod Types
pub mod Routing
pub mod Frames
pub mod Icmp
pub mod Cache
pub mod Queue
pub mod Handle
mod Tests
