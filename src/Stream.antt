-- ===== src/Stream.antt =====
-- src/stream: the streams of publishers and players, and their manager.
pub mod Packet
pub mod Push
pub mod Manager
