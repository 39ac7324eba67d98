-- ===== src/Net.antt =====
-- rust_gui/src/net.rs: the network thread, the reader thread and what they share.
pub mod State
pub mod Tofu
pub mod Server
pub mod Reader
pub mod Request
pub mod Commands
