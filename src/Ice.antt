-- ===== src/Ice.antt =====
-- src/ice: the connectivity layer.
pub mod Stun
pub mod Connection
pub mod Controller
pub mod Channel
