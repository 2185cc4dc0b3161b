-- ===== src/Rtp.antt =====
-- src/modules: the RTP and RTCP bookkeeping of the receiving side.
pub mod Histogram
pub mod Nack
pub mod Statistics
