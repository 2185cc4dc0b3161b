-- ===== src/Stream/Manager.antt =====
-- src/stream/rtc_stream_manager.cpp: who publishes and who plays which stream.
pub mod State
pub mod Handlers
pub mod Invariant
pub mod Removal
pub mod Stops
pub mod Creation
pub mod Updates
pub mod Calls
pub mod Delivery
pub mod EndToEnd
pub mod Lookup
pub mod Leak
mod Examples
