-- ===== src/Pc.antt =====
-- src/pc: the transports of a peer connection.
pub mod Dtls
pub mod Controller
